-- ===== src/Zk/StateWatch/Settled.antt =====
-- Every promise of a state watch is satisfied by the next event, once (src/zk/connection.cpp).
use Prim.Native.Nat.{ℕ, zero, suc, ◌+◌}
use zookeeper_cpp.Base.{
  ℤ, List, [], ◌∷◌, ◌++◌, append_assoc, append-nil, map, some, ◌≡◌, refl, ap, sym, ◌∙◌, arith, ◌≢◌,
  ◌==ℤ◌, Bool-cases, inl, inr, length, length-append, get_elem?, set, All, All-append, subst,
  some_inj,
}
use zookeeper_cpp.Types.EventType
use zookeeper_cpp.Types.State.{State}
use zookeeper_cpp.Zk.Adaptors.{event_from_raw, state_from_raw}
use zookeeper_cpp.Zk.Promise.{Promise, unset, value, exception}
use zookeeper_cpp.Zk.Zoo.{Zoo}
use zookeeper_cpp.Zk.StateWatch.{
  StateWatches, watch_state, outcome, give_found, give_all, with_promises, on_session_event,
  on_session_event_raw, StateReach, fresh, watched, informed,
}

unsets : ℕ → Promise State → List (Promise State)
unsets zero r = []
unsets (suc m) r = r ∷ unsets m r

places : ℕ → ℕ → List ℕ
places k zero = []
places k (suc m) = k ∷ places (suc k) m

-- The promises with a result are in front, and those that wait behind them.
record Split (s : StateWatches) : Type 0 where
  olds : List (Promise State)
  count : ℕ
  olds_done : All (λ p. p ≢ unset) olds
  promises_are : s.promises ≡ olds ++ unsets count unset
  waiting_are : s.waiting ≡ places (length olds) count

get_elem?-append_length :
    (xs : List (Promise State)) (x : Promise State) (ys : List (Promise State))
    → get_elem? (xs ++ x ∷ ys) (length xs) ≡ some x
get_elem?-append_length [] x ys = refl
get_elem?-append_length (y ∷ xs) x ys = get_elem?-append_length xs x ys

set-append_length :
    (xs : List (Promise State)) (x y : Promise State) (ys : List (Promise State))
    → set (xs ++ x ∷ ys) (length xs) y ≡ (xs ++ y ∷ []) ++ ys
set-append_length [] x y ys = refl
set-append_length (z ∷ xs) x y ys = ap (◌∷◌ z) (set-append_length xs x y ys)

unsets_last : (m : ℕ) → unsets m unset ++ unset ∷ [] ≡ unsets (suc m) unset
unfolding unsets
unsets_last zero = refl
unsets_last (suc m) = ap (◌∷◌ unset) (unsets_last m)

length-unsets : (m : ℕ) → length (unsets m unset) ≡ m
unfolding unsets
length-unsets zero = refl
length-unsets (suc m) = ap (λ k. suc k) (length-unsets m)

places_last : (k m l : ℕ) → l ≡ k + m → places k m ++ l ∷ [] ≡ places k (suc m)
unfolding places
places_last k zero l e = ap (λ n. n ∷ []) (omega (arith, e))
places_last k (suc m) l e = ap (◌∷◌ k) (places_last (suc k) m l (omega (arith, e)))

give_one :
    (r : Promise State) (i : ℕ) (is : List ℕ) (promises : List (Promise State))
    → get_elem? promises i ≡ some unset
    → give_all r (i ∷ is) promises ≡ give_all r is (set promises i r)
unfolding give_all give_found
give_one r i is promises e = rw (give_all, e) refl

give_all_lem :
    (r : Promise State) (m : ℕ) (xs : List (Promise State))
    → give_all r (places (length xs) m) (xs ++ unsets m unset) ≡ some (xs ++ unsets m r)
unfolding give_all unsets places
give_all_lem r zero xs = refl
give_all_lem r (suc m) xs =
    let next : List (Promise State) = (xs ++ r ∷ []) ++ unsets m unset in
    let len : length (xs ++ r ∷ []) ≡ suc (length xs) = length-append xs (r ∷ []) ∙ omega arith in
    give_one r (length xs) (places (suc (length xs)) m) (xs ++ unset ∷ unsets m unset)
      (get_elem?-append_length xs unset (unsets m unset))
    ∙ ap (give_all r (places (suc (length xs)) m)) (set-append_length xs unset r (unsets m unset))
    ∙ ap (λ k. give_all r (places k m) next) (sym len)
    ∙ give_all_lem r m (xs ++ r ∷ [])
    ∙ ap some (append_assoc xs (r ∷ []) (unsets m r))

-- What an event leaves of a promise: one with a result keeps it.
abbrev pub settle : Promise State → Promise State → Promise State
settle r unset = r
settle r (value x) = value x
settle r (exception e) = exception e

settle-olds :
    (r : Promise State) (xs ys : List (Promise State))
    → All (λ p. p ≢ unset) xs
    → map (settle r) (xs ++ ys) ≡ xs ++ map (settle r) ys
settle-olds r [] ys h = refl
settle-olds r (unset ∷ xs) ys h = absurd (h.0 refl)
settle-olds r (value x ∷ xs) ys h = ap (◌∷◌ (value x)) (settle-olds r xs ys h.1)
settle-olds r (exception e ∷ xs) ys h = ap (◌∷◌ (exception e)) (settle-olds r xs ys h.1)

settle-unsets : (r : Promise State) (m : ℕ) → map (settle r) (unsets m unset) ≡ unsets m r
unfolding unsets
settle-unsets r zero = refl
settle-unsets r (suc m) = ap (◌∷◌ r) (settle-unsets r m)

unsets-done : (r : Promise State) (m : ℕ) → r ≢ unset → All (λ p. p ≢ unset) (unsets m r)
unfolding unsets
unsets-done r zero ne = tt
unsets-done r (suc m) ne = (ne, unsets-done r m ne)

outcome-ne-unset : (st : State) → outcome st ≢ unset
unfolding outcome
outcome-ne-unset st = ground arith

event_lem :
    (st : State) (s : StateWatches)
    → Split s
    → on_session_event st s
      ≡ some (record { promises = map (settle (outcome st)) s.promises; waiting = [] })
unfolding on_session_event
event_lem st s v =
    let r : Promise State = outcome st in
    let given : give_all r s.waiting s.promises ≡ some (map (settle r) s.promises) =
      rw (v.promises_are, v.waiting_are)
        (give_all_lem r v.count v.olds
          ∙ ap some (
              ap (λ ys. v.olds ++ ys) (sym (settle-unsets r v.count))
              ∙ sym (settle-olds r v.olds (unsets v.count unset) v.olds_done))) in
    ap with_promises given

watch-Split : (s : StateWatches) → Split s → Split (watch_state s).0
unfolding watch_state
watch-Split s v = record {
  olds = v.olds;
  count = suc v.count;
  olds_done = v.olds_done;
  promises_are =
      ap (λ ys. ys ++ unset ∷ []) v.promises_are
      ∙ append_assoc v.olds (unsets v.count unset) (unset ∷ [])
      ∙ ap (λ ys. v.olds ++ ys) (unsets_last v.count);
  waiting_are = rw v.waiting_are (
      places_last (length v.olds) v.count _ (
        ap length v.promises_are
        ∙ length-append v.olds (unsets v.count unset)
        ∙ ap (λ k. length v.olds + k) (length-unsets v.count)));
}

raw_lem :
    (zoo : Zoo) (ev_type raw : ℤ) (s t : StateWatches)
    → Split s
    → on_session_event_raw zoo ev_type raw s ≡ some t
    → Split t
unfolding on_session_event_raw unsets places
raw_lem zoo ev_type raw s t v e = elim (Bool-cases (event_from_raw ev_type ==ℤ EventType.session)) [
  | inl session ↦
      let st : State = state_from_raw zoo raw in
      let r : Promise State = outcome st in
      let all : List (Promise State) = v.olds ++ unsets v.count r in
      let settled : map (settle r) s.promises ≡ all =
        ap (map (settle r)) v.promises_are
        ∙ settle-olds r v.olds (unsets v.count unset) v.olds_done
        ∙ ap (λ ys. v.olds ++ ys) (settle-unsets r v.count) in
      let same : record { promises = map (settle r) s.promises; waiting = [] } ≡ t =
        some_inj (sym (event_lem st s v) ∙ rw session at e) in
      subst Split same (record {
        olds = map (settle r) s.promises;
        count = 0;
        olds_done = subst (All (λ p. p ≢ unset)) (sym settled) (
            All-append (λ p. p ≢ unset) v.olds (unsets v.count r) v.olds_done
              (unsets-done r v.count (outcome-ne-unset st)));
        promises_are = sym (append-nil (map (settle r) s.promises));
        waiting_are = refl;
      })
  | inr other ↦ subst Split (some_inj (rw other at e)) v
]

StateReach-Split : {zoo : Zoo} {s : StateWatches} → StateReach zoo s → Split s
unfolding unsets places
StateReach-Split fresh = record {
  olds = [];
  count = 0;
  olds_done = tt;
  promises_are = refl;
  waiting_are = refl;
}
StateReach-Split (watched {s} r) = watch-Split s (StateReach-Split r)
StateReach-Split {zoo} (informed {s} {t} ev_type raw r e) =
    raw_lem zoo ev_type raw s t (StateReach-Split r) e

-- After any calls of `watch_state` and any events, a further change of the session's state throws no
-- `std::future_error`: every promise that had no result gets the state, or the exception for an expired
-- session or a failed authentication; a promise with a result keeps it; and none waits any more.
pub StateReach-event :
    {zoo : Zoo} {s : StateWatches} (st : State)
    → StateReach zoo s
    → (on_session_event st s
        ≡ some (record { promises = map (settle (outcome st)) s.promises; waiting = [] }))
      × All (λ p. p ≢ unset) (map (settle (outcome st)) s.promises)
StateReach-event {zoo} {s} st r =
    let v : Split s = StateReach-Split r in
    let o : Promise State = outcome st in
    let settled : map (settle o) s.promises ≡ v.olds ++ unsets v.count o =
      ap (map (settle o)) v.promises_are
      ∙ settle-olds o v.olds (unsets v.count unset) v.olds_done
      ∙ ap (λ ys. v.olds ++ ys) (settle-unsets o v.count) in
    (
      event_lem st s v,
      subst (All (λ p. p ≢ unset)) (sym settled) (
          All-append (λ p. p ≢ unset) v.olds (unsets v.count o) v.olds_done
            (unsets-done o v.count (outcome-ne-unset st))),
    )
