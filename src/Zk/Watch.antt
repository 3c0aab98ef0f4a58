-- ===== src/Zk/Watch.antt =====
-- The watchers of src/zk/connection_zk.cpp: a promise for the data that a watch starts with, a promise for
-- the event that ends it, and a flag for each that lets one delivery through.
pub mod Deliver
pub mod Race
use zookeeper_cpp.Base.{
  ℕ, ℤ, Bool, true, false, Option, none, some, ◌==ℤ◌, [], if◌then◌else◌, Bytes, List,
}
use zookeeper_cpp.Error.Code
use zookeeper_cpp.Error.Code.{ErrorCode}
use zookeeper_cpp.Error.Exn.{Exn, throw_error, future_error}
use zookeeper_cpp.Types.EventType.{EventType}
use zookeeper_cpp.Types.State.{State}
use zookeeper_cpp.Zk.Adaptors.{error_code_from_raw, stat_from_raw, string_vector_from_raw}
use zookeeper_cpp.Zk.Promise.{Promise, unset, value, exception, satisfy}
use zookeeper_cpp.Zk.Request.{
  Reply, Request, Payload, get_result, get_children_result, exists_result,
}
use zookeeper_cpp.Zk.Zoo.{Zoo, RawStat}

-- `event` (src/zk/results.hpp).
pub record Event : Type 0 where
  pub kind : EventType
  pub state : State

-- `data_watcher`, `child_watcher` and `exists_watcher`.
pub data WatchKind : Type 0 where
  data_watcher child_watcher exists_watcher : WatchKind

-- `watcher` and `basic_watcher`. The data promise holds the initial result; the future of the event
-- promise goes with it, and `event_taken` says that it was taken.
pub record Watcher : Type 0 where
  pub kind : WatchKind
  pub event_delivered : Bool
  pub event_promise : Promise Event
  pub event_taken : Bool
  pub data_delivered : Bool
  pub data_promise : Promise Reply

-- The constructors.
unfoldable pub make_watcher : WatchKind → Watcher
make_watcher kind = record {
  kind = kind;
  event_delivered = false;
  event_promise = unset;
  event_taken = false;
  data_delivered = false;
  data_promise = unset;
}

with_data : Watcher → Option (Promise Reply) → Option Watcher
with_data w none = none
with_data w (some p) = some (record w { data_promise = p; data_delivered = true })

with_event : Watcher → Option (Promise Event) → Option Watcher
with_event w none = none
with_event w (some p) = some (record w { event_promise = p; event_delivered = true })

-- `deliver_data`, with the result or exception that it is given. The result `none` is
-- `std::future_error`.
unfoldable pub deliver_data : Promise Reply → Watcher → Option Watcher
unfolding with_data
deliver_data r w = if w.data_delivered then some w else with_data w (satisfy w.data_promise r)

-- `watcher::deliver_event`.
base_deliver_event : Event → Watcher → Option Watcher
unfolding with_event
base_deliver_event ev w =
    if w.event_delivered then some w else with_event w (satisfy w.event_promise (value ev))

base_deliver : Event → Option Watcher → Option Watcher
unfolding base_deliver_event
base_deliver ev none = none
base_deliver ev (some w) = base_deliver_event ev w

-- `basic_watcher::deliver_event`.
unfoldable pub deliver_event : Event → Watcher → Option Watcher
unfolding deliver_data base_deliver
deliver_event ev w =
    if w.data_delivered
    then base_deliver_event ev w
    else base_deliver ev (deliver_data (exception (throw_error Code.closed)) w)

-- `get_event_future`. The result `none` is `std::future_error`.
unfoldable pub get_event_future : Watcher → Option Watcher
get_event_future w = if w.event_taken then none else some (record w { event_taken = true })

-- The operation whose data a watch of this kind starts with, and whose completion type it has.
abbrev pub as_request : WatchKind → Request
as_request data_watcher = Request.get []
as_request child_watcher = Request.get_children []
as_request exists_watcher = Request.exists []

-- What the library hands to a watcher's completion beside the code.
abbrev pub WatchPayload : WatchKind → Type 0
WatchPayload k = Payload (as_request k)

-- The argument of `deliver_data` takes the event's future first; what it throws leaves `deliver_raw`.
deliver_with_event : Reply → Option Watcher → Option Watcher
unfolding deliver_data
deliver_with_event r none = none
deliver_with_event r (some w) = deliver_data (value r) w

-- The same inside the `try` of `child_watcher`, which delivers what was thrown.
deliver_or_catch : Reply → Watcher → Option Watcher → Option Watcher
unfolding deliver_data
deliver_or_catch r w none = deliver_data (exception future_error) w
deliver_or_catch r w (some w') = deliver_data (value r) w'

deliver_rc : ErrorCode → (k : WatchKind) → WatchPayload k → Watcher → Option Watcher
unfolding deliver_data deliver_with_event deliver_or_catch get_event_future
deliver_rc rc data_watcher (d, pstat) w =
    if rc ==ℤ Code.ok
    then deliver_with_event (get_result d (stat_from_raw pstat)) (get_event_future w)
    else deliver_data (exception (throw_error rc)) w
deliver_rc rc child_watcher (strings_in, stat_in) w =
    if rc ==ℤ Code.ok
    then deliver_or_catch
        (get_children_result (string_vector_from_raw strings_in) (stat_from_raw stat_in)) w
        (get_event_future w)
    else deliver_data (exception (throw_error rc)) w
deliver_rc rc exists_watcher stat_in w =
    if rc ==ℤ Code.ok
    then deliver_with_event (exists_result (some (stat_from_raw stat_in))) (get_event_future w)
    else if rc ==ℤ Code.no_entry
    then deliver_with_event (exists_result none) (get_event_future w)
    else deliver_data (exception (throw_error rc)) w

-- `deliver_raw` of each kind.
unfoldable pub deliver_raw : Zoo → (k : WatchKind) → ℤ → WatchPayload k → Watcher → Option Watcher
unfolding deliver_rc
deliver_raw zoo k rc_in payload w = deliver_rc (error_code_from_raw zoo rc_in) k payload w
