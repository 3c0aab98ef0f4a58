-- ===== src/Zk/Session.antt =====
-- The watches of a `connection_zk` (src/zk/connection_zk.cpp): `watch`, `watch_children`, `watch_exists`,
-- `try_extract_watch`, `deliver_watch`, `close` and `state`.
--
-- The watchers that were allocated are a list of cells, and the address of one is its place. A cell is
-- alive until the watcher's destructor runs; its promises are then what their futures still read. A new
-- watcher may have the address of one that is destroyed. A handler has the result `none` for a fault: a
-- use of a watcher that is destroyed, or `std::future_error`. Each handler runs as one step.
pub mod Invariant
pub mod Steps
pub mod Handlers
pub mod Starts
pub mod Reach
pub mod New
use zookeeper_cpp.Base.{
  ℕ, ℤ, Bool, true, false, List, [], ◌∷◌, ◌++◌, Option, none, some, ◌==◌, ◌==ℤ◌, if◌then◌else◌,
  length, get_elem?, set, extract,
}
use zookeeper_cpp.Error.Code
use zookeeper_cpp.Error.Code.{ErrorCode}
use zookeeper_cpp.Error.Exn.{throw_error}
use zookeeper_cpp.Error.Result.{Result, ok, err}
use zookeeper_cpp.Types.EventType
use zookeeper_cpp.Types.State
use zookeeper_cpp.Types.State.{State}
use zookeeper_cpp.Zk.Adaptors.{error_code_from_raw, event_from_raw, state_from_raw}
use zookeeper_cpp.Zk.Promise.{exception}
use zookeeper_cpp.Zk.Zoo.{Zoo}
use zookeeper_cpp.Zk.Watch.{
  Event, WatchKind, child_watcher, exists_watcher, Watcher, make_watcher, deliver_data,
  deliver_event, WatchPayload, deliver_raw,
}

pub record Cell : Type 0 where
  pub alive : Bool
  pub watcher : Watcher

pub record Conn : Type 0 where
  pub handle : Option ℕ
  pub cells : List Cell
  -- The watchers whose address another one got after their destruction.
  pub past : List Cell
  pub watches : List (ℕ × ℕ)

store_cell : ℕ → List Cell → Bool → Option Watcher → Option (List Cell)
store_cell i cells alive none = none
store_cell i cells alive (some w) = some (set cells i (record { alive = alive; watcher = w }))

use_found : ℕ → Bool → (Watcher → Option Watcher) → List Cell → Option Cell → Option (List Cell)
unfolding store_cell
use_found i alive f cells none = none
use_found i alive f cells (some c) =
    if c.alive then store_cell i cells alive (f c.watcher) else none

-- A method call through a pointer to a watcher, after which the watcher is alive or destroyed.
unfoldable pub use_watcher : ℕ → Bool → (Watcher → Option Watcher) → List Cell → Option (List Cell)
unfolding use_found
use_watcher i alive f cells = use_found i alive f cells (get_elem? cells i)

-- `emplace` of a map: an entry that is there stays.
unfoldable pub emplace : ℕ → ℕ → List (ℕ × ℕ) → List (ℕ × ℕ)
unfolding extract
emplace k v ps = elim (extract k ps) [ none ↦ (k, v) ∷ ps | some found ↦ ps ]

place_found : ℕ → Cell → Conn → Option Cell → Option Conn
place_found addr cell c none =
    if addr == length c.cells then some (record c { cells = c.cells ++ cell ∷ [] }) else none
place_found addr cell c (some old) =
    if old.alive
    then none
    else some (record c { cells = set c.cells addr cell; past = old ∷ c.past })

-- A watcher at the address that `make_shared` answers: one behind all others, or that of a watcher that
-- is destroyed. Any other address is no answer, `none`.
unfoldable pub place : ℕ → Cell → Conn → Option Conn
unfolding place_found
place addr cell c = place_found addr cell c (get_elem? c.cells addr)

add_entry : ℕ → Option Conn → Option Conn
unfolding emplace
add_entry addr none = none
add_entry addr (some c) = some (record c { watches = emplace addr addr c.watches })

refuse : ℕ → Conn → Option Watcher → Option Conn
unfolding place
refuse addr c none = none
refuse addr c (some w) = place addr (record { alive = false; watcher = w }) c

-- `watch` and, for the other kinds, `watch_children` and `watch_exists`, for the library's result of the
-- call and the address of the new watcher, whose data future is returned.
unfoldable pub watch : Zoo → WatchKind → ℤ → ℕ → Conn → Option Conn
unfolding place add_entry refuse
watch zoo kind rc_in addr c =
    let rc : ErrorCode = error_code_from_raw zoo rc_in in
    if rc ==ℤ Code.ok
    then add_entry addr (place addr (record { alive = true; watcher = make_watcher kind }) c)
    else refuse addr c (deliver_data (exception (throw_error rc)) (make_watcher kind))

abbrev pub watch_children : Zoo → ℤ → ℕ → Conn → Option Conn
watch_children zoo = watch zoo child_watcher

abbrev pub watch_exists : Zoo → ℤ → ℕ → Conn → Option Conn
watch_exists zoo = watch zoo exists_watcher

with_cells : Conn → Option (List Cell) → Option Conn
with_cells c none = none
with_cells c (some cells) = some (record c { cells = cells })

-- The completion of a watch's request.
unfoldable pub complete_watch : Zoo → (k : WatchKind) → ℤ → WatchPayload k → ℕ → Conn → Option Conn
unfolding with_cells use_watcher
complete_watch zoo k rc_in payload self_in c =
    with_cells c (use_watcher self_in true (deliver_raw zoo k rc_in payload) c.cells)

deliver_found : Event → Conn → Option (ℕ × List (ℕ × ℕ)) → Option Conn
unfolding with_cells use_watcher
deliver_found ev c none = some c
deliver_found ev c (some (ptr, rest)) =
    with_cells (record c { watches = rest }) (use_watcher ptr false (deliver_event ev) c.cells)

-- `deliver_watch`, with `try_extract_watch`. The map's pointer is the last one, so the watcher is
-- destroyed at the end.
unfoldable pub deliver_watch : Zoo → ℤ → ℤ → ℕ → Conn → Option Conn
unfolding deliver_found
deliver_watch zoo type_in state_in proms_in c =
    deliver_found (record { kind = event_from_raw type_in; state = state_from_raw zoo state_in }) c
      (extract proms_in c.watches)

-- The loop of `close` over the watches that were moved out; they are destroyed with the map.
unfoldable pub deliver_all : Event → List (ℕ × ℕ) → List Cell → Option (List Cell)
unfolding use_watcher
deliver_all ev [] cells = some cells
deliver_all ev ((k, ptr) ∷ ws) cells = elim (use_watcher ptr false (deliver_event ev) cells) [
  | none ↦ none
  | some cells' ↦ deliver_all ev ws cells'
]

abbrev pub close_event : Event
close_event = record { kind = EventType.session; state = State.closed }

close_done : Conn → Option (List Cell) → Option (Result Conn)
close_done c none = none
close_done c (some cells) =
    some (ok (record { handle = none; cells = cells; past = c.past; watches = [] }))

close_handle : Zoo → ℤ → Conn → Option ℕ → Option (Result Conn)
unfolding close_done deliver_all
close_handle zoo rc_in c none = some (ok c)
close_handle zoo rc_in c (some h) =
    let e : ErrorCode = error_code_from_raw zoo rc_in in
    if e ==ℤ Code.ok
    then close_done c (deliver_all close_event c.watches c.cells)
    else some (err (throw_error e))

-- `close`, for the result of `zookeeper_close`.
unfoldable pub close : Zoo → ℤ → Conn → Option (Result Conn)
unfolding close_handle
close zoo rc_in c = close_handle zoo rc_in c c.handle

-- `state`, for the result of `zoo_state`.
unfoldable pub state : Zoo → ℤ → Conn → State
state zoo raw c = elim c.handle [ none ↦ State.closed | some h ↦ state_from_raw zoo raw ]
