-- ===== src/Zk/Watch/Race/Delivered.antt =====
-- When the deliveries have ended, both promises have a result.
use zookeeper_cpp.Base.{
  ℕ, ◌⊎◌, inl, inr, Bool, true, false, List, [], ◌∷◌, some, ◌≡◌, refl, sym, ◌∙◌, All, arith,
  some_inj, subst,
}
use zookeeper_cpp.Zk.Promise.{is_unset}
use zookeeper_cpp.Zk.Watch.Race.{Shared, fresh, Thread, data_done, event_done, run}
use zookeeper_cpp.Zk.Watch.Race.Invariant.{
  IsStart, starts_event, starts_data, run-AllInv, start-AllInv, AllInv, sets_data, sets_event,
  total, Agrees,
}
use zookeeper_cpp.Zk.Watch.Race.Moves.{Passed, delivers_event, any_event, run-AllMoves}

start-Passed : {t : Thread} → IsStart t → Passed fresh t
start-Passed (starts_event ev) = tt
start-Passed (starts_data r h) = tt

All-Passed : (ts : List Thread) → All IsStart ts → All (Passed fresh) ts
All-Passed [] h = tt
All-Passed (t ∷ ts) h = (start-Passed h.0, All-Passed ts h.1)

-- The ends of the two deliveries.
pub data IsDone : Thread → Type 0 where
  ends_data : IsDone data_done
  ends_event : IsDone event_done

done_flags_of :
    (s : Shared) {t : Thread}
    → IsDone t
    → Passed s t
    → (delivers_event t ≡ false) ⊎ (s.data_delivered ≡ true) × (s.event_delivered ≡ true)
done_flags_of s ends_data p = inl refl
done_flags_of s ends_event p = inr p

-- At the end of its thread an event is delivered, and the flags say so.
done-flags :
    (s : Shared) (ts : List Thread)
    → All (Passed s) ts
    → All IsDone ts
    → any_event ts ≡ true
    → (s.data_delivered ≡ true) × (s.event_delivered ≡ true)
unfolding any_event
done-flags s [] p d e = cc e
done-flags s (t ∷ ts) p d e = elim (done_flags_of s d.0 p.0) [
  | inr flags ↦ flags
  | inl other ↦ done-flags s ts p.1 d.1 (rw other at e)
]

done-sets : {t : Thread} → IsDone t → (sets_data t ≡ 0) × (sets_event t ≡ 0)
done-sets ends_data = (refl, refl)
done-sets ends_event = (refl, refl)

done-total :
    (ts : List Thread) → All IsDone ts → (total sets_data ts ≡ 0) × (total sets_event ts ≡ 0)
unfolding total
done-total [] d = (refl, refl)
done-total (t ∷ ts) d =
    let (p, q) = done-sets d.0 in
    let (ps, qs) = done-total ts d.1 in (omega (arith, p, ps), omega (arith, q, qs))

Agrees-set : (flag lacks : Bool) (n : ℕ) → Agrees flag lacks n → flag ≡ true → n ≡ 0 → lacks ≡ false
Agrees-set false lacks n a f e = cc f
Agrees-set true false n a f e = refl
Agrees-set true true n a f e = absurd (omega (arith, a, e))

-- When all threads have ended, whatever the order of their accesses, and one of them was delivering an
-- event, then the promise of the data and that of the event have a result.
pub run-delivered :
    (is : List ℕ) (ts us : List Thread) (u : Shared)
    → All IsStart ts
    → any_event ts ≡ true
    → run is (ts, fresh) ≡ some (us, u)
    → All IsDone us
    → (is_unset u.data_promise ≡ false) × (is_unset u.event_promise ≡ false)
run-delivered is ts us u start some_event ran done =
    let (xs, x, ran', v) = run-AllInv is ts fresh (start-AllInv ts start) in
    let (passed, same) = run-AllMoves is ts fresh us u (All-Passed ts start) ran in
    let (data_flag, event_flag) = done-flags u us passed done (same ∙ some_event) in
    let (p, q) = done-total us done in
    let w : AllInv 0 0 us u =
      subst (λ (c : List Thread × Shared). AllInv 0 0 c.0 c.1) (some_inj (sym ran' ∙ ran)) v in
    (
      Agrees-set _ _ _ w.inv.data_agrees data_flag (omega (arith, p)),
      Agrees-set _ _ _ w.inv.event_agrees event_flag (omega (arith, q)),
    )
