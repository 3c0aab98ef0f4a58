-- ===== src/Zk/Session/Steps.antt =====
-- Each delivery to a watcher, and each new watcher, keeps the invariant.
use zookeeper_cpp.Base.{
  ℕ, ℤ, true, false, List, some, ◌≡◌, ◌≢◌, inl, inr, refl, ap, subst, sym, ◌∙◌, ◌==◌, ==_iff,
  Bool-cases, get_elem?, set, HasKey, Picks, Picks-HasKey, Picks-rest, Picks-other, Picks-gone,
  Picks-Distinct, get_elem?-lt, get_elem?-set_self, get_elem?-set_ne, get_elem?-set_cases,
}
use zookeeper_cpp.Zk.Promise.{Promise, unset, value}
use zookeeper_cpp.Zk.Request.{Reply, callback}
use zookeeper_cpp.Zk.Request.Delivery.{callback-ne-unset}
use zookeeper_cpp.Zk.Watch.{
  Event, WatchKind, WatchPayload, as_request, Watcher, deliver_event, deliver_raw,
}
use zookeeper_cpp.Zk.Watch.Deliver.{deliver_event_lem, deliver_raw_lem, has_value}
use zookeeper_cpp.Zk.Zoo.{Zoo}
use zookeeper_cpp.Zk.Session.{Cell, use_watcher}
use zookeeper_cpp.Zk.Session.Invariant.{
  CellInv, Inv, own_key-Picks, use_watcher_lem, after_event, after_event-CellInv, destroyed-Inv,
}

-- The watcher at an address had an event, and is destroyed.
abbrev pub Ended : Event → ℕ → List Cell → Type 0
Ended ev i cells =
    (c : Cell) × (get_elem? cells i ≡ some c)
    × (c.alive ≡ false)
    × (c.watcher.event_promise ≡ value ev)

-- An event's delivery through an entry of the map, whose request does not wait any more, is no fault.
pub event_step :
    (ev : Event) (k ptr : ℕ) (cells : List Cell) (watches rest : List (ℕ × ℕ))
    (awaiting : List (ℕ × WatchKind))
    → Inv cells watches awaiting
    → Picks (k, ptr) watches rest
    → ¬ HasKey k awaiting
    → (cells' : List Cell) × (use_watcher ptr false (deliver_event ev) cells ≡ some cells')
      × Inv cells' rest awaiting
      × Ended ev k cells'
event_step ev k ptr cells watches rest awaiting v pick quiet =
    let (c, e, a) = v.watched_lives k (Picks-HasKey pick) in
    let ci : CellInv c = v.cell_inv k c e in
    let w : Watcher = after_event ev c.watcher in
    (
      set cells k (record { alive = false; watcher = w }),
      rw (own_key-Picks pick v.own_key).0 (
          use_watcher_lem k false (deliver_event ev) cells c w e a
            (deliver_event_lem ev c.watcher ci.consistent (ci.no_event a))),
      destroyed-Inv cells watches rest awaiting k ptr _ v pick quiet (after_event-CellInv ev c ci)
          refl,
      (_, get_elem?-set_self cells k _ (get_elem?-lt cells k e), refl, refl),
    )

-- A watcher that its completion was delivered to.
abbrev pub after_data : Promise Reply → Watcher → Watcher
after_data r w = record w { data_promise = r; data_delivered = true; event_taken = has_value r }

after_data-CellInv :
    (r : Promise Reply) (c : Cell)
    → r ≢ unset
    → CellInv c
    → c.alive ≡ true
    → CellInv (record { alive = true; watcher = after_data r c.watcher })
after_data-CellInv r c ne v a = record {
  consistent = record {
    data_unset = λ e. cc e;
    data_set = λ _. ne;
    event_unset = v.consistent.event_unset;
    event_set = v.consistent.event_set;
  };
  no_event = λ _. v.no_event a;
  data_done = λ e. cc e;
  event_done = λ e. cc e;
}

-- The watcher at an address, which lives, has a result for its data, and its event's future was handed
-- out exactly if that is a value.
abbrev pub Told : Promise Reply → ℕ → List Cell → Type 0
Told r i cells =
    (c : Cell) × (get_elem? cells i ≡ some c)
    × (c.alive ≡ true)
    × (c.watcher.data_promise ≡ r)
    × (c.watcher.event_taken ≡ has_value r)

-- The completion of a watch's request that waits is no fault.
pub data_step :
    (zoo : Zoo) (k : WatchKind) (rc_in : ℤ) (payload : WatchPayload k) (i : ℕ) (cells : List Cell)
    (watches : List (ℕ × ℕ)) (awaiting rest : List (ℕ × WatchKind))
    → Inv cells watches awaiting
    → Picks (i, k) awaiting rest
    → (cells' : List Cell) × (use_watcher i true (deliver_raw zoo k rc_in payload) cells
        ≡ some cells')
      × Inv cells' watches rest
      × Told (callback zoo (as_request k) rc_in payload) i cells'
data_step zoo k rc_in payload i cells watches awaiting rest v pick =
    let (c, e, a, d, t) = v.awaiting_fresh i (Picks-HasKey pick) in
    let ci : CellInv c = v.cell_inv i c e in
    let r : Promise Reply = callback zoo (as_request k) rc_in payload in
    let ne : r ≢ unset = callback-ne-unset zoo (as_request k) rc_in payload in
    let c' : Cell = record { alive = true; watcher = after_data r c.watcher } in
    let other : (j : ℕ) → j ≢ i → get_elem? (set cells i c') j ≡ get_elem? cells j =
      λ j ne. get_elem?-set_ne cells c' (λ e. ne (sym e)) in
    let self : get_elem? (set cells i c') i ≡ some c' =
      get_elem?-set_self cells i c' (get_elem?-lt cells i e) in
    (
      set cells i c',
      use_watcher_lem i true (deliver_raw zoo k rc_in payload) cells c _ e a
          (deliver_raw_lem zoo k rc_in payload c.watcher ci.consistent d t),
      record {
        cell_inv = λ j b f. elim (get_elem?-set_cases cells i j c' f) [
          | inl (_, g) ↦ subst CellInv g (after_data-CellInv r c ne ci a)
          | inr (_, g) ↦ v.cell_inv j b g
        ];
        own_key = v.own_key;
        distinct = v.distinct;
        watched_lives = λ j h.
            let (b, f, l) = v.watched_lives j h in
            elim (Bool-cases (j == i)) [
              | inl same ↦ rw ((==_iff j i).0 same) (c', self, refl)
              | inr differ ↦ (b, other j (λ s. cc (differ, (==_iff j i).1 s)) ∙ f, l)
            ];
        alive_watched = λ j b f l. elim (get_elem?-set_cases cells i j c' f) [
          | inl (s, _) ↦ rw s (v.alive_watched i c e a)
          | inr (_, g) ↦ v.alive_watched j b g l
        ];
        awaiting_fresh = λ j h.
            let (b, f, l, d', t') = v.awaiting_fresh j (Picks-rest pick j h) in
            (
              b,
              other j (λ same.
                    Picks-gone pick v.distinct_awaiting (subst (λ n. HasKey n rest) same h))
                  ∙ f,
              l,
              d',
              t',
            );
        unset_awaits = λ j b f u. elim (get_elem?-set_cases cells i j c' f) [
          | inl (_, g) ↦ absurd (ne (ap (λ (x : Cell). x.watcher.data_promise) g ∙ u))
          | inr (n, g) ↦ Picks-other pick j n (v.unset_awaits j b g u)
        ];
        distinct_awaiting = Picks-Distinct pick v.distinct_awaiting;
      },
      (c', self, refl, refl, refl),
    )
