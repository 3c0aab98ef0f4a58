-- ===== src/Zk/Watch/Race/Moves.antt =====
-- What the steps of deliveries do to the threads and to the flags.
use zookeeper_cpp.Base.{
  ℕ, zero, suc, Bool, true, false, ◌||◌, List, [], ◌∷◌, Option, none, some, ◌≡◌, refl, ap, ◌∙◌, All,
  some_inj, none-some, inl, inr, subst, if◌then◌else◌, Option-cases,
}
use zookeeper_cpp.Error.Code
use zookeeper_cpp.Error.Exn.{throw_error}
use zookeeper_cpp.Zk.Promise.{Promise, value, exception, satisfy}
use zookeeper_cpp.Zk.Request.{Reply}
use zookeeper_cpp.Zk.Watch.{Event}
use zookeeper_cpp.Zk.Watch.Race.{
  Shared, Thread, at_load, at_data_exchange, at_data_set, at_event_exchange, at_event_set,
  data_done, event_done, after_data, step_thread, step, run, store_data, store_event, stepped, kept,
}

-- Whether a thread is one of `deliver_event`.
abbrev pub delivers_event : Thread → Bool
delivers_event (at_load ev) = true
delivers_event (at_data_exchange r none) = false
delivers_event (at_data_exchange r (some ev)) = true
delivers_event (at_data_set r none) = false
delivers_event (at_data_set r (some ev)) = true
delivers_event (at_event_exchange ev) = true
delivers_event (at_event_set ev) = true
delivers_event data_done = false
delivers_event event_done = true

-- Whether one of the threads is of `deliver_event`.
unfoldable pub any_event : List Thread → Bool
any_event [] = false
any_event (t ∷ ts) = delivers_event t || any_event ts

-- The flags that a thread which has got this far found set, or has set.
abbrev pub Passed : Shared → Thread → Type 0
Passed s (at_load ev) = Unit
Passed s (at_data_exchange r ev) = Unit
Passed s (at_data_set r ev) = s.data_delivered ≡ true
Passed s (at_event_exchange ev) = s.data_delivered ≡ true
Passed s (at_event_set ev) = (s.data_delivered ≡ true) × (s.event_delivered ≡ true)
Passed s data_done = s.data_delivered ≡ true
Passed s event_done = (s.data_delivered ≡ true) × (s.event_delivered ≡ true)

-- A set flag stays set.
record Grows (s u : Shared) : Type 0 where
  data_stays : s.data_delivered ≡ true → u.data_delivered ≡ true
  event_stays : s.event_delivered ≡ true → u.event_delivered ≡ true

Passed-Grows : (s u : Shared) (t : Thread) → Grows s u → Passed s t → Passed u t
Passed-Grows s u (at_load ev) g h = tt
Passed-Grows s u (at_data_exchange r ev) g h = tt
Passed-Grows s u (at_data_set r ev) g h = g.data_stays h
Passed-Grows s u (at_event_exchange ev) g h = g.data_stays h
Passed-Grows s u (at_event_set ev) g h = (g.data_stays h.0, g.event_stays h.1)
Passed-Grows s u data_done g h = g.data_stays h
Passed-Grows s u event_done g h = (g.data_stays h.0, g.event_stays h.1)

-- What a step does to the thread that makes it.
record Moves (t : Thread) (s : Shared) (x : Thread × Shared) : Type 0 where
  passed : Passed x.1 x.0
  grows : Grows s x.1
  same : delivers_event x.0 ≡ delivers_event t

stays : (s : Shared) → Grows s s
stays s = record { data_stays = λ h. h; event_stays = λ h. h }

store_data-some :
    (s : Shared) (t : Thread) (o : Option (Promise Reply)) (x : Thread × Shared)
    → store_data s t o ≡ some x
    → (p : Promise Reply) × ((t, record s { data_promise = p }) ≡ x)
unfolding store_data
store_data-some s t none x e = absurd (none-some e)
store_data-some s t (some p) x e = (p, some_inj e)

store_event-some :
    (s : Shared) (o : Option (Promise Event)) (x : Thread × Shared)
    → store_event s o ≡ some x
    → (p : Promise Event) × ((event_done, record s { event_promise = p }) ≡ x)
unfolding store_event
store_event-some s none x e = absurd (none-some e)
store_event-some s (some p) x e = (p, some_inj e)

sets_data_flag : (s : Shared) → Grows s (record s { data_delivered = true })
sets_data_flag s = record { data_stays = λ h. refl; event_stays = λ h. h }

sets_event_flag : (s : Shared) → Grows s (record s { event_delivered = true })
sets_event_flag s = record { data_stays = λ h. h; event_stays = λ h. refl }

load-Moves :
    (ev : Event) (b : Bool) (s : Shared)
    → s.data_delivered ≡ b
    → Moves (at_load ev) s (
      if b
          then at_event_exchange ev
          else at_data_exchange (exception (throw_error Code.closed)) (some ev),
      s,
    )
load-Moves ev true s h = record { passed = h; grows = stays s; same = refl }
load-Moves ev false s h = record { passed = tt; grows = stays s; same = refl }

data_exchange-Moves :
    (r : Promise Reply) (ev : Option Event) (b : Bool) (s : Shared)
    → Moves
        (at_data_exchange r ev)
        s
        (if b then after_data ev else at_data_set r ev, record s { data_delivered = true })
data_exchange-Moves r none true s = record { passed = refl; grows = sets_data_flag s; same = refl }
data_exchange-Moves r (some ev) true s = record {
  passed = refl;
  grows = sets_data_flag s;
  same = refl;
}
data_exchange-Moves r none false s = record { passed = refl; grows = sets_data_flag s; same = refl }
data_exchange-Moves r (some ev) false s = record {
  passed = refl;
  grows = sets_data_flag s;
  same = refl;
}

event_exchange-Moves :
    (ev : Event) (b : Bool) (s : Shared)
    → s.data_delivered ≡ true
    → Moves
        (at_event_exchange ev)
        s
        (if b then event_done else at_event_set ev, record s { event_delivered = true })
event_exchange-Moves ev true s h = record {
  passed = (h, refl);
  grows = sets_event_flag s;
  same = refl;
}
event_exchange-Moves ev false s h = record {
  passed = (h, refl);
  grows = sets_event_flag s;
  same = refl;
}

data_set-Moves :
    (r : Promise Reply) (ev : Option Event) (p : Promise Reply) (s : Shared)
    → s.data_delivered ≡ true
    → Moves (at_data_set r ev) s (after_data ev, record s { data_promise = p })
data_set-Moves r none p s h = record {
  passed = h;
  grows = record { data_stays = λ q. q; event_stays = λ q. q };
  same = refl;
}
data_set-Moves r (some ev) p s h = record {
  passed = h;
  grows = record { data_stays = λ q. q; event_stays = λ q. q };
  same = refl;
}

step_thread-Moves :
    (t : Thread) (s : Shared) (x : Thread × Shared)
    → Passed s t
    → step_thread t s ≡ some x
    → Moves t s x
unfolding step_thread
step_thread-Moves (at_load ev) s x h e =
    subst (Moves (at_load ev) s) (some_inj e) (load-Moves ev s.data_delivered s refl)
step_thread-Moves (at_data_exchange r ev) s x h e =
    subst (Moves (at_data_exchange r ev) s) (some_inj e)
      (data_exchange-Moves r ev s.data_delivered s)
step_thread-Moves (at_data_set r ev) s x h e =
    let (p, same) = store_data-some s (after_data ev) (satisfy s.data_promise r) x e in
    subst (Moves (at_data_set r ev) s) same (data_set-Moves r ev p s h)
step_thread-Moves (at_event_exchange ev) s x h e =
    subst (Moves (at_event_exchange ev) s) (some_inj e)
      (event_exchange-Moves ev s.event_delivered s h)
step_thread-Moves (at_event_set ev) s x h e =
    let (p, same) = store_event-some s (satisfy s.event_promise (value ev)) x e in
    subst (Moves (at_event_set ev) s) same (record {
      passed = h;
      grows = record { data_stays = λ q. q; event_stays = λ q. q };
      same = refl;
    })
step_thread-Moves data_done s x h e =
    subst (Moves data_done s) (some_inj e) (record { passed = h; grows = stays s; same = refl })
step_thread-Moves event_done s x h e =
    subst (Moves event_done s) (some_inj e) (record { passed = h; grows = stays s; same = refl })

-- What a step does to all threads.
record AllMoves (ts : List Thread) (s : Shared) (c : List Thread × Shared) : Type 0 where
  all_passed : All (Passed c.1) c.0
  all_grows : Grows s c.1
  all_same : any_event c.0 ≡ any_event ts

All-Grows : (s u : Shared) (ts : List Thread) → Grows s u → All (Passed s) ts → All (Passed u) ts
All-Grows s u [] g h = tt
All-Grows s u (t ∷ ts) g h = (Passed-Grows s u t g h.0, All-Grows s u ts g h.1)

stepped-some :
    (ts : List Thread) (o : Option (Thread × Shared)) (c : List Thread × Shared)
    → stepped ts o ≡ some c
    → (x : Thread × Shared) × (o ≡ some x) × ((x.0 ∷ ts, x.1) ≡ c)
unfolding stepped
stepped-some ts none c e = absurd (none-some e)
stepped-some ts (some (t, s)) c e = ((t, s), refl, some_inj e)

kept-some :
    (t : Thread) (o : Option (List Thread × Shared)) (c : List Thread × Shared)
    → kept t o ≡ some c
    → (d : List Thread × Shared) × (o ≡ some d) × ((t ∷ d.0, d.1) ≡ c)
unfolding kept
kept-some t none c e = absurd (none-some e)
kept-some t (some (ts, s)) c e = ((ts, s), refl, some_inj e)

step-AllMoves :
    (i : ℕ) (ts : List Thread) (s : Shared) (c : List Thread × Shared)
    → All (Passed s) ts
    → step i ts s ≡ some c
    → AllMoves ts s c
unfolding step any_event
step-AllMoves i [] s c h e =
    subst (AllMoves [] s) (some_inj e)
      (record { all_passed = tt; all_grows = stays s; all_same = refl })
step-AllMoves zero (t ∷ ts) s c h e =
    let (x, one, same) = stepped-some ts (step_thread t s) c e in
    let m : Moves t s x = step_thread-Moves t s x h.0 one in
    subst (AllMoves (t ∷ ts) s) same (record {
      all_passed = (m.passed, All-Grows s x.1 ts m.grows h.1);
      all_grows = m.grows;
      all_same = ap (λ b. b || any_event ts) m.same;
    })
step-AllMoves (suc i) (t ∷ ts) s c h e =
    let (d, one, same) = kept-some t (step i ts s) c e in
    let m : AllMoves ts s d = step-AllMoves i ts s d h.1 one in
    subst (AllMoves (t ∷ ts) s) same (record {
      all_passed = (Passed-Grows s d.1 t m.all_grows h.0, m.all_passed);
      all_grows = m.all_grows;
      all_same = ap (λ b. delivers_event t || b) m.all_same;
    })

pub run-AllMoves :
    (is : List ℕ) (ts : List Thread) (s : Shared) (us : List Thread) (u : Shared)
    → All (Passed s) ts
    → run is (ts, s) ≡ some (us, u)
    → All (Passed u) us × (any_event us ≡ any_event ts)
unfolding run
run-AllMoves [] ts s us u h e =
    subst (λ (c : List Thread × Shared). All (Passed c.1) c.0 × (any_event c.0 ≡ any_event ts))
      (some_inj e) (h, refl)
run-AllMoves (i ∷ is) ts s us u h e = elim (Option-cases (step i ts s)) [
  | inl fault ↦ absurd (none-some (rw (run, fault) at e))
  | inr (c, one) ↦
      let m : AllMoves ts s c = step-AllMoves i ts s c h one in
      let (passed, same) = run-AllMoves is c.0 c.1 us u m.all_passed (rw (run, one) at e) in
      (passed, same ∙ m.all_same)
]
