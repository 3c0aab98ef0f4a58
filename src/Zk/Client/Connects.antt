-- ===== src/Zk/Client/Connects.antt =====
-- What the future of `client::connect` gets.
use zookeeper_cpp.Base.{
  codes, ◌++◌, ==ℤ_iff, ℕ, zero, suc, ℤ, arith, List, [], ◌∷◌, Option, none, some, ◌≡◌, refl, ap,
  ◌∙◌, ◌==ℤ◌, map, Bool-cases, inl, inr, get_elem?, get_elem?-concat_self, length, if◌then◌else◌,
}
use mathlib.Core.Option
use zookeeper_cpp.Error.Code
use zookeeper_cpp.Error.Exn.{throw_error, runtime_error}
use zookeeper_cpp.Error.Result.{ok}
use zookeeper_cpp.Types.EventType
use zookeeper_cpp.Types.State
use zookeeper_cpp.Types.State.{State}
use zookeeper_cpp.Zk.Adaptors.{event_from_raw, state_from_raw}
use zookeeper_cpp.Zk.Client.{Client, client, connect, connect_task, check_state, awaited, future_of}
use zookeeper_cpp.Zk.Promise.{Promise, unset, value, exception}
use zookeeper_cpp.Zk.StateWatch.{
  StateWatches, watch_state, outcome, on_session_event_raw, StateReach, watched, informed,
}
use zookeeper_cpp.Zk.StateWatch.Settled.{settle, StateReach-event}
use zookeeper_cpp.Zk.Zoo.{Zoo}

-- Events of the library, each with its type and state.
abbrev pub Events : Type 0
Events = List (ℤ × ℤ)

module _ (zoo : Zoo) where
  -- The handlers of events, in order.
  unfoldable pub run_events : Events → StateWatches → Option StateWatches
  run_events [] s = some s
  run_events ((ev_type, raw) ∷ events) s = elim (on_session_event_raw zoo ev_type raw s) [
    | none ↦ none
    | some t ↦ run_events events t
  ]

  -- The state of the first event of the session.
  unfoldable pub first_state : Events → Option State
  first_state [] = none
  first_state ((ev_type, raw) ∷ events) =
      let later : Option State = first_state events in
      if event_from_raw ev_type ==ℤ EventType.session then some (state_from_raw zoo raw) else later

-- What the future of a client gets for the state of the session.
unfoldable pub answer : State → Promise Client
answer st =
    if st ==ℤ State.connected
    then value client
    else if st ==ℤ State.expired_session
    then exception (throw_error Code.session_expired)
    else if st ==ℤ State.authentication_failed
    then exception (throw_error Code.authentication_failed)
    else exception (runtime_error (codes "Unexpected state: " ++ State.to_string st))

-- What the first state decides.
unfoldable pub decided : Option State → Promise Client
unfolding answer
decided none = unset
decided (some st) = answer st

connect_task-outcome : (st : State) → connect_task (outcome st) ≡ answer st
unfolding connect_task outcome answer
connect_task-outcome st = elim (Bool-cases (st ==ℤ State.expired_session)) [
  | inl expired ↦ rw ((==ℤ_iff st State.expired_session).0 expired) refl
  | inr alive ↦ elim (Bool-cases (st ==ℤ State.authentication_failed)) [
    | inl failed ↦ rw ((==ℤ_iff st State.authentication_failed).0 failed) refl
    | inr passed ↦ rw (alive, passed) refl
  ]
]

-- What a promise has after the events.
abbrev settled_by : Option State → Promise State → Promise State
settled_by none p = p
settled_by (some st) p = settle (outcome st) p

get_elem?-map :
    (f : Promise State → Promise State) (ps : List (Promise State)) (i : ℕ) {p : Promise State}
    → get_elem? ps i ≡ some p
    → get_elem? (map f ps) i ≡ some (f p)
get_elem?-map f [] i e = cc e
get_elem?-map f (q ∷ ps) zero e = ap (Option.map f) e
get_elem?-map f (q ∷ ps) (suc i) e = get_elem?-map f ps i e

settle-outcome : (r : Promise State) (st : State) → settle r (outcome st) ≡ outcome st
unfolding outcome
settle-outcome r st = ground arith

settled_by-settle :
    (later : Option State) (st : State) (p : Promise State)
    → settled_by later (settle (outcome st) p) ≡ settle (outcome st) p
settled_by-settle none st p = refl
settled_by-settle (some later) st unset = settle-outcome (outcome later) st
settled_by-settle (some later) st (value x) = refl
settled_by-settle (some later) st (exception e) = refl

connect_task-settled_by :
    (later : Option State) → connect_task (settled_by later unset) ≡ decided later
unfolding decided connect_task
connect_task-settled_by none = refl
connect_task-settled_by (some st) = connect_task-outcome st

check_state-future :
    (at_check : State) (i : ℕ) (t : StateWatches) (later : Option State)
    → get_elem? t.promises i ≡ some (settled_by later unset)
    → future_of (check_state at_check i) t
      ≡ (if at_check ==ℤ State.connected then value client else decided later)
unfolding future_of awaited
check_state-future at_check i t later got = elim (Bool-cases (at_check ==ℤ State.connected)) [
  | inl ready ↦ rw ready refl
  | inr waits ↦ rw (waits, got) (connect_task-settled_by later)
]

module _ (zoo : Zoo) where
  run_events-settled :
      (events : Events) (s : StateWatches) (i : ℕ) {p : Promise State}
      → StateReach zoo s
      → get_elem? s.promises i ≡ some p
      → (t : StateWatches) × (run_events zoo events s ≡ some t)
        × (get_elem? t.promises i ≡ some (settled_by (first_state zoo events) p))
  unfolding run_events first_state on_session_event_raw
  run_events-settled [] s i r e = (s, refl, e)
  run_events-settled ((ev_type, raw) ∷ events) s i {p} r e =
      elim (Bool-cases (event_from_raw ev_type ==ℤ EventType.session)) [
        | inr other ↦
            let same : on_session_event_raw zoo ev_type raw s ≡ some s = rw other refl in
            let (t, ran, got) = run_events-settled events s i r e in
            (t, rw (run_events, same) ran, rw other got)
        | inl session ↦
            let st : State = state_from_raw zoo raw in
            let next : StateWatches = record {
              promises = map (settle (outcome st)) s.promises;
              waiting = [];
            } in
            let given : on_session_event_raw zoo ev_type raw s ≡ some next =
              rw session ((StateReach-event st r).0) in
            let (t, ran, got) =
              run_events-settled events next i (informed ev_type raw r given)
                (get_elem?-map (settle (outcome st)) s.promises i e) in
            (
              t,
              rw (run_events, given) ran,
              rw session (got ∙ ap some (settled_by-settle (first_state zoo events) st p)),
            )
      ]

  -- After any history of state watches and events, when the connection could be made, and whatever
  -- events follow the call: the handlers of all of them run without `std::future_error`, and the future of
  -- `connect` has the client if the library was connected at the test; otherwise the first session
  -- event behind the call decides it, with the client for the state `connected`, an exception for an expired session or a
  -- failed authentication, and a `std::runtime_error` for any other state; before that event it waits.
  pub connect-decided {ℓ} :
      {A : Type ℓ} (conn : A) (at_check : State) (events : Events) {s : StateWatches}
      → StateReach zoo s
      → (t : StateWatches) × (run_events zoo events (connect (ok conn) at_check s).0 ≡ some t)
        × (future_of (connect (ok conn) at_check s).1 t ≡ (
            if at_check ==ℤ State.connected
            then value client
            else decided (first_state zoo events)))
  unfolding connect watch_state
  connect-decided conn at_check events {s} r =
      let (t, ran, got) =
        run_events-settled events (watch_state s).0 (length s.promises) (watched r)
          (get_elem?-concat_self s.promises unset) in
      (t, ran, check_state-future at_check (length s.promises) t (first_state zoo events) got)
