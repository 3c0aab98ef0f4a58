-- ===== src/Zk/Watch/Race/Invariant.antt =====
-- No schedule of deliveries sets a promise twice.
use zookeeper_cpp.Base.{
  ℕ, zero, suc, ◌+◌, Bool, true, false, List, [], ◌∷◌, Option, none, some, ◌≡◌, refl, inl, inr, All,
  arith, Bool-cases,
}
use zookeeper_cpp.Error.Code
use zookeeper_cpp.Error.Exn.{throw_error}
use zookeeper_cpp.Zk.Promise.{Promise, unset, value, exception, is_unset}
use zookeeper_cpp.Zk.Request.{Reply}
use zookeeper_cpp.Zk.Watch.{Event}
use zookeeper_cpp.Zk.Watch.Race.{
  Shared, fresh, Thread, at_load, at_data_exchange, at_data_set, at_event_exchange, at_event_set,
  data_done, event_done, step_thread, step, run, store_data, store_event, stepped, kept,
  deliver_event_thread, deliver_data_thread,
}

-- Whether a thread is about to set the promise.
abbrev pub sets_data : Thread → ℕ
sets_data (at_data_set r ev) = 1
sets_data _ = 0

abbrev pub sets_event : Thread → ℕ
sets_event (at_event_set ev) = 1
sets_event _ = 0

unfoldable pub total : (Thread → ℕ) → List Thread → ℕ
total f [] = 0
total f (t ∷ ts) = f t + total f ts

-- A flag, its promise, and the number of threads that are about to set it: nobody before the flag is set,
-- then one until the promise has its result, then nobody.
abbrev pub Agrees : Bool → Bool → ℕ → Type 0
Agrees false lacks n = (lacks ≡ true) × (n ≡ 0)
Agrees true true n = n ≡ 1
Agrees true false n = n ≡ 0

-- The result of a data promise is a value or an exception, and no thread delivers nothing.
abbrev pub HasResult : Thread → Type 0
HasResult (at_data_exchange r ev) = is_unset r ≡ false
HasResult (at_data_set r ev) = is_unset r ≡ false
HasResult _ = Unit

pub record Inv (n m : ℕ) (s : Shared) : Type 0 where
  pub data_agrees : Agrees s.data_delivered (is_unset s.data_promise) n
  pub event_agrees : Agrees s.event_delivered (is_unset s.event_promise) m

-- A step, with `k` and `l` other threads about to set the promises.
abbrev Keeps : ℕ → ℕ → Option (Thread × Shared) → Type 0
Keeps k l o =
    (t : Thread) × (s : Shared) × (o ≡ some (t, s))
    × HasResult t
    × Inv (sets_data t + k) (sets_event t + l) s

module _ (k l : ℕ) where
  -- The exchange of the data flag, and the set of the promise behind it.
  data_exchange-Keeps :
      (r : Promise Reply) (ev : Option Event) (d : Bool) (dp : Promise Reply) (e : Bool)
      (ep : Promise Event)
      → is_unset r ≡ false
      → Agrees d (is_unset dp) (0 + k)
      → Agrees e (is_unset ep) (0 + l)
      → Keeps k l (
          step_thread (at_data_exchange r ev) (record {
            data_delivered = d;
            data_promise = dp;
            event_delivered = e;
            event_promise = ep;
          }))
  unfolding step_thread
  data_exchange-Keeps r none true dp e ep h a b =
      (_, _, refl, tt, record { data_agrees = a; event_agrees = b })
  data_exchange-Keeps r (some ev) true dp e ep h a b =
      (_, _, refl, tt, record { data_agrees = a; event_agrees = b })
  data_exchange-Keeps r ev false unset e ep h a b =
      (_, _, refl, h, record { data_agrees = omega (arith, a.1); event_agrees = b })
  data_exchange-Keeps r ev false (value x) e ep h a b = cc (a.0)
  data_exchange-Keeps r ev false (exception x) e ep h a b = cc (a.0)

  data_set-Keeps :
      (r : Promise Reply) (ev : Option Event) (d : Bool) (dp : Promise Reply) (e : Bool)
      (ep : Promise Event)
      → is_unset r ≡ false
      → Agrees d (is_unset dp) (1 + k)
      → Agrees e (is_unset ep) (0 + l)
      → Keeps k l (
          step_thread (at_data_set r ev) (record {
            data_delivered = d;
            data_promise = dp;
            event_delivered = e;
            event_promise = ep;
          }))
  unfolding step_thread store_data
  data_set-Keeps r ev false dp e ep h a b = absurd (omega (arith, a.1))
  data_set-Keeps r ev true (value x) e ep h a b = absurd (omega (arith, a))
  data_set-Keeps r ev true (exception x) e ep h a b = absurd (omega (arith, a))
  data_set-Keeps r none true unset e ep h a b =
      (_, _, refl, tt, record { data_agrees = rw h (omega (arith, a)); event_agrees = b })
  data_set-Keeps r (some ev) true unset e ep h a b =
      (_, _, refl, tt, record { data_agrees = rw h (omega (arith, a)); event_agrees = b })

  event_exchange-Keeps :
      (ev : Event) (d : Bool) (dp : Promise Reply) (e : Bool) (ep : Promise Event)
      → Agrees d (is_unset dp) (0 + k)
      → Agrees e (is_unset ep) (0 + l)
      → Keeps k l (
          step_thread (at_event_exchange ev) (record {
            data_delivered = d;
            data_promise = dp;
            event_delivered = e;
            event_promise = ep;
          }))
  unfolding step_thread
  event_exchange-Keeps ev d dp true ep a b =
      (_, _, refl, tt, record { data_agrees = a; event_agrees = b })
  event_exchange-Keeps ev d dp false unset a b =
      (_, _, refl, tt, record { data_agrees = a; event_agrees = omega (arith, b.1) })
  event_exchange-Keeps ev d dp false (value x) a b = cc (b.0)
  event_exchange-Keeps ev d dp false (exception x) a b = cc (b.0)

  event_set-Keeps :
      (ev : Event) (d : Bool) (dp : Promise Reply) (e : Bool) (ep : Promise Event)
      → Agrees d (is_unset dp) (0 + k)
      → Agrees e (is_unset ep) (1 + l)
      → Keeps k l (
          step_thread (at_event_set ev) (record {
            data_delivered = d;
            data_promise = dp;
            event_delivered = e;
            event_promise = ep;
          }))
  unfolding step_thread store_event
  event_set-Keeps ev d dp false ep a b = absurd (omega (arith, b.1))
  event_set-Keeps ev d dp true (value x) a b = absurd (omega (arith, b))
  event_set-Keeps ev d dp true (exception x) a b = absurd (omega (arith, b))
  event_set-Keeps ev d dp true unset a b =
      (_, _, refl, tt, record { data_agrees = a; event_agrees = omega (arith, b) })

  load-Keeps :
      (ev : Event) (s : Shared) → Inv (0 + k) (0 + l) s → Keeps k l (step_thread (at_load ev) s)
  unfolding step_thread
  load-Keeps ev s v = elim (Bool-cases s.data_delivered) [
    | inl delivered ↦ (at_event_exchange ev, s, rw delivered refl, tt, v)
    | inr not_yet ↦ (
      at_data_exchange (exception (throw_error Code.closed)) (some ev),
      s,
      rw not_yet refl,
      refl,
      v,
    )
  ]

step_thread-Keeps :
    (k l : ℕ) (t : Thread) (s : Shared)
    → HasResult t
    → Inv (sets_data t + k) (sets_event t + l) s
    → Keeps k l (step_thread t s)
step_thread-Keeps k l (at_load ev) s h v = load-Keeps k l ev s v
step_thread-Keeps k l (at_data_exchange r ev) s h v =
    data_exchange-Keeps k l r ev s.data_delivered s.data_promise s.event_delivered s.event_promise h
      v.data_agrees v.event_agrees
step_thread-Keeps k l (at_data_set r ev) s h v =
    data_set-Keeps k l r ev s.data_delivered s.data_promise s.event_delivered s.event_promise h
      v.data_agrees v.event_agrees
step_thread-Keeps k l (at_event_exchange ev) s h v =
    event_exchange-Keeps k l ev s.data_delivered s.data_promise s.event_delivered s.event_promise
      v.data_agrees v.event_agrees
step_thread-Keeps k l (at_event_set ev) s h v =
    event_set-Keeps k l ev s.data_delivered s.data_promise s.event_delivered s.event_promise
      v.data_agrees v.event_agrees
step_thread-Keeps k l data_done s h v = (data_done, s, unfold step_thread in refl, tt, v)
step_thread-Keeps k l event_done s h v = (event_done, s, unfold step_thread in refl, tt, v)

-- What holds of all threads.
pub record AllInv (k l : ℕ) (ts : List Thread) (s : Shared) : Type 0 where
  pub results : All HasResult ts
  pub inv : Inv (total sets_data ts + k) (total sets_event ts + l) s

Inv-cong : {n n' m m' : ℕ} {s : Shared} → n ≡ n' → m ≡ m' → Inv n m s → Inv n' m' s
Inv-cong {s} p q v = rw (← p, ← q) v

step-AllInv :
    (k l i : ℕ) (ts : List Thread) (s : Shared)
    → AllInv k l ts s
    → (us : List Thread) × (u : Shared) × (step i ts s ≡ some (us, u)) × AllInv k l us u
unfolding step stepped kept total
step-AllInv k l i [] s v = ([], s, refl, v)
step-AllInv k l zero (t ∷ ts) s v =
    let (t', s', e, h, w) =
      step_thread-Keeps (total sets_data ts + k) (total sets_event ts + l) t s v.results.0
        (Inv-cong (omega arith) (omega arith) v.inv) in
    (
      t' ∷ ts,
      s',
      rw e refl,
      record { results = (h, v.results.1); inv = Inv-cong (omega arith) (omega arith) w },
    )
step-AllInv k l (suc i) (t ∷ ts) s v =
    let (us, u, e, w) =
      step-AllInv (sets_data t + k) (sets_event t + l) i ts s
        (record { results = v.results.1; inv = Inv-cong (omega arith) (omega arith) v.inv }) in
    (
      t ∷ us,
      u,
      rw e refl,
      record {
        results = (v.results.0, w.results);
        inv = Inv-cong (omega arith) (omega arith) w.inv;
      },
    )

pub run-AllInv :
    (is : List ℕ) (ts : List Thread) (s : Shared)
    → AllInv 0 0 ts s
    → (us : List Thread) × (u : Shared) × (run is (ts, s) ≡ some (us, u)) × AllInv 0 0 us u
unfolding run
run-AllInv [] ts s v = (ts, s, refl, v)
run-AllInv (i ∷ is) ts s v =
    let (us, u, e, w) = step-AllInv 0 0 i ts s v in
    let (xs, x, e', y) = run-AllInv is us u w in (xs, x, rw (run, e) e', y)

-- A thread that is about to call `deliver_event`, or `deliver_data` with a value or an exception.
pub data IsStart : Thread → Type 0 where
  starts_event : (ev : Event) → IsStart (deliver_event_thread ev)
  starts_data : (r : Promise Reply) → is_unset r ≡ false → IsStart (deliver_data_thread r)

IsStart-HasResult : {t : Thread} → IsStart t → HasResult t × (sets_data t ≡ 0) × (sets_event t ≡ 0)
IsStart-HasResult (starts_event ev) = (tt, refl, refl)
IsStart-HasResult (starts_data r h) = (h, refl, refl)

All-HasResult : (ts : List Thread) → All IsStart ts → All HasResult ts
All-HasResult [] h = tt
All-HasResult (t ∷ ts) h = ((IsStart-HasResult h.0).0, All-HasResult ts h.1)

All-total :
    (ts : List Thread) → All IsStart ts → (total sets_data ts ≡ 0) × (total sets_event ts ≡ 0)
unfolding total
All-total [] h = (refl, refl)
All-total (t ∷ ts) h =
    let (result, p, q) = IsStart-HasResult h.0 in
    let (ps, qs) = All-total ts h.1 in (omega (arith, p, ps), omega (arith, q, qs))

pub start-AllInv : (ts : List Thread) → All IsStart ts → AllInv 0 0 ts fresh
start-AllInv ts h =
    let (p, q) = All-total ts h in
    record {
      results = All-HasResult ts h;
      inv = record {
        data_agrees = (refl, omega (arith, p));
        event_agrees = (refl, omega (arith, q));
      };
    }

-- However many threads deliver events and results to a new watcher at a time, and in whatever order
-- their accesses to the flags and promises come, no promise is set twice: no step throws
-- `std::future_error`.
pub run-safe :
    (is : List ℕ) (ts : List Thread)
    → All IsStart ts
    → (us : List Thread) × (u : Shared) × (run is (ts, fresh) ≡ some (us, u))
run-safe is ts h = let (us, u, e, v) = run-AllInv is ts fresh (start-AllInv ts h) in (us, u, e)
