-- ===== src/Zk/Watch/Race.antt =====
-- The deliveries to one watcher by several threads at a time (src/zk/connection_zk.cpp), where
-- `Watch` has each as one step. A step here is one access to an atomic flag or to a promise.
pub mod Invariant
pub mod Moves
pub mod Delivered
use zookeeper_cpp.Base.{
  ℕ, zero, suc, Bool, true, false, List, [], ◌∷◌, Option, none, some, if◌then◌else◌,
}
use zookeeper_cpp.Error.Code
use zookeeper_cpp.Error.Exn.{throw_error}
use zookeeper_cpp.Zk.Promise.{Promise, unset, value, exception, satisfy}
use zookeeper_cpp.Zk.Request.{Reply}
use zookeeper_cpp.Zk.Watch.{Event}

-- The atomic flags and the promises that the threads share.
pub record Shared : Type 0 where
  pub data_delivered : Bool
  pub data_promise : Promise Reply
  pub event_delivered : Bool
  pub event_promise : Promise Event

abbrev pub fresh : Shared
fresh = record {
  data_delivered = false;
  data_promise = unset;
  event_delivered = false;
  event_promise = unset;
}

-- Where a thread stands: before the load of `deliver_event`; before the exchange of `deliver_data` and
-- behind one that it won, with the event that it delivers afterwards if it came from `deliver_event`;
-- the same for the event; and at the end of `deliver_data` or of `deliver_event`.
pub data Thread : Type 0 where
  at_load : Event → Thread
  at_data_exchange at_data_set : Promise Reply → Option Event → Thread
  at_event_exchange at_event_set : Event → Thread
  data_done event_done : Thread

-- What follows `deliver_data`.
abbrev pub after_data : Option Event → Thread
after_data none = data_done
after_data (some ev) = at_event_exchange ev

store_data : Shared → Thread → Option (Promise Reply) → Option (Thread × Shared)
store_data s t none = none
store_data s t (some p) = some (t, record s { data_promise = p })

store_event : Shared → Option (Promise Event) → Option (Thread × Shared)
store_event s none = none
store_event s (some p) = some (event_done, record s { event_promise = p })

-- One step of a thread. The result `none` is `std::future_error`.
unfoldable pub step_thread : Thread → Shared → Option (Thread × Shared)
unfolding store_data store_event
step_thread (at_load ev) s = some (
  if s.data_delivered
      then at_event_exchange ev
      else at_data_exchange (exception (throw_error Code.closed)) (some ev),
  s,
)
step_thread (at_data_exchange r ev) s = some (
  if s.data_delivered then after_data ev else at_data_set r ev,
  record s { data_delivered = true },
)
step_thread (at_data_set r ev) s = store_data s (after_data ev) (satisfy s.data_promise r)
step_thread (at_event_exchange ev) s =
    some (
      if s.event_delivered then event_done else at_event_set ev,
      record s { event_delivered = true },
    )
step_thread (at_event_set ev) s = store_event s (satisfy s.event_promise (value ev))
step_thread data_done s = some (data_done, s)
step_thread event_done s = some (event_done, s)

-- The threads and what they share.
abbrev pub Config : Type 0
Config = List Thread × Shared

stepped : List Thread → Option (Thread × Shared) → Option Config
stepped ts none = none
stepped ts (some (t, s)) = some (t ∷ ts, s)

kept : Thread → Option Config → Option Config
kept t none = none
kept t (some (ts, s)) = some (t ∷ ts, s)

-- A step of the thread at a place; a place with no thread is no step.
unfoldable pub step : ℕ → List Thread → Shared → Option Config
unfolding stepped kept step_thread
step i [] s = some ([], s)
step zero (t ∷ ts) s = stepped ts (step_thread t s)
step (suc i) (t ∷ ts) s = kept t (step i ts s)

-- A schedule: which thread does each step.
unfoldable pub run : List ℕ → Config → Option Config
unfolding step
run [] c = some c
run (i ∷ is) (ts, s) = elim (step i ts s) [ none ↦ none | some c ↦ run is c ]

-- The start of `deliver_data` with a result or an exception, and of `deliver_event`.
abbrev pub deliver_data_thread : Promise Reply → Thread
deliver_data_thread r = at_data_exchange r none

abbrev pub deliver_event_thread : Event → Thread
deliver_event_thread ev = at_load ev
