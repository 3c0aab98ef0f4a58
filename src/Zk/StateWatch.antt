-- ===== src/Zk/StateWatch.antt =====
-- The watches of the session's state: `connection::watch_state` and `connection::on_session_event`
-- (src/zk/connection.cpp), and `on_session_event_raw` (src/zk/connection_zk.cpp).
--
-- The promises that were made are a list, and `_state_change_promises` holds the places of those that
-- wait. The result `none` is `std::future_error`.
pub mod Settled
use Prim.Native.Nat.{ℕ, zero, suc, ◌+◌}
use zookeeper_cpp.Base.{
  ℤ, List, [], ◌∷◌, ◌++◌, append_assoc, append-nil, map, Option, none, some, ◌≡◌, refl, ap, sym,
  ◌∙◌, arith, ◌≢◌, ◌==ℤ◌, if◌then◌else◌, Bool-cases, inl, inr, length, length-append, get_elem?,
  set, All, All-append, subst, some_inj, ◌⊎◌,
}
use zookeeper_cpp.Error.Code
use zookeeper_cpp.Error.Exn.{throw_error}
use zookeeper_cpp.Types.EventType
use zookeeper_cpp.Types.State
use zookeeper_cpp.Types.State.{State}
use zookeeper_cpp.Zk.Adaptors.{event_from_raw, state_from_raw}
use zookeeper_cpp.Zk.Promise.{Promise, unset, value, exception, satisfy}
use zookeeper_cpp.Zk.Zoo.{Zoo}

pub record StateWatches : Type 0 where
  pub promises : List (Promise State)
  pub waiting : List ℕ

-- `watch_state`. The second part is the place of the promise whose future is returned.
unfoldable pub watch_state : StateWatches → StateWatches × ℕ
watch_state s = (
  record { promises = s.promises ++ unset ∷ []; waiting = s.waiting ++ length s.promises ∷ [] },
  length s.promises,
)

-- What `on_session_event` gives to each promise.
unfoldable pub outcome : State → Promise State
outcome new_state =
    if new_state ==ℤ State.expired_session
    then exception (throw_error Code.session_expired)
    else if new_state ==ℤ State.authentication_failed
    then exception (throw_error Code.authentication_failed)
    else value new_state

give_found :
    ℕ
    → Promise State
    → List (Promise State)
    → Option (Promise State)
    → Option (List (Promise State))
give_found i r promises none = none
give_found i r promises (some p) = elim (satisfy p r) [
  | none ↦ none
  | some p' ↦ some (set promises i p')
]

-- The loop over the promises that were moved out.
give_all : Promise State → List ℕ → List (Promise State) → Option (List (Promise State))
unfolding give_found
give_all r [] promises = some promises
give_all r (i ∷ is) promises = elim (give_found i r promises (get_elem? promises i)) [
  | none ↦ none
  | some promises' ↦ give_all r is promises'
]

with_promises : Option (List (Promise State)) → Option StateWatches
with_promises none = none
with_promises (some promises) = some (record { promises = promises; waiting = [] })

unfoldable pub on_session_event : State → StateWatches → Option StateWatches
unfolding give_all with_promises outcome
on_session_event new_state s = with_promises (give_all (outcome new_state) s.waiting s.promises)

-- `on_session_event_raw`, but for its warning.
unfoldable pub on_session_event_raw : Zoo → ℤ → ℤ → StateWatches → Option StateWatches
unfolding on_session_event
on_session_event_raw zoo ev_type raw s =
    if event_from_raw ev_type ==ℤ EventType.session
    then on_session_event (state_from_raw zoo raw) s
    else some s

-- Calls and events in any order.
pub data StateReach (zoo : Zoo) : StateWatches → Type 0 where
  fresh : StateReach zoo (record { promises = []; waiting = [] })
  watched : {s : StateWatches} → StateReach zoo s → StateReach zoo (watch_state s).0
  informed :
      {s t : StateWatches} (ev_type raw : ℤ)
      → StateReach zoo s
      → on_session_event_raw zoo ev_type raw s ≡ some t
      → StateReach zoo t
