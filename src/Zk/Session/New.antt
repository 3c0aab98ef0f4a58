-- ===== src/Zk/Session/New.antt =====
-- A new watcher keeps the invariant, whether the library takes its request or refuses it.
use zookeeper_cpp.Base.{
  ℕ, true, false, List, [], ◌∷◌, ◌++◌, ◌≡◌, ◌≢◌, ◌⊎◌, inl, inr, refl, ap, sym, subst, ◌∙◌, arith,
  length, Bool, Option, none, if◌then◌else◌, some, some_inj, none-some, get_elem?, HasKey,
  extract-cases, Picks-HasKey, get_elem?-concat_self, get_elem?-concat_ne, All, set, get_elem?-lt,
  get_elem?-set_self, get_elem?-set_ne, Bool-cases, ◌==◌, ==_iff,
}
use zookeeper_cpp.Zk.Promise.{exception}
use zookeeper_cpp.Error.Exn.{Exn}
use zookeeper_cpp.Zk.Watch.{WatchKind, make_watcher}
use zookeeper_cpp.Zk.Session.{Cell, Conn, emplace, place, place_found}
use zookeeper_cpp.Zk.Session.Invariant.{CellInv, Lives, Fresh, Inv}

-- An address that the map does not have gets an entry.
pub emplace_lem : (k v : ℕ) (ps : List (ℕ × ℕ)) → ¬ HasKey k ps → emplace k v ps ≡ (k, v) ∷ ps
unfolding emplace
emplace_lem k v ps absent = elim (extract-cases k ps) [
  | inl (e, _) ↦ rw (e, emplace) refl
  | inr (a, rest, e, p) ↦ absurd (absent (Picks-HasKey p))
]

-- The watcher and its map entry that a request which was taken leaves.
abbrev pub new_cell : WatchKind → Cell
new_cell k = record { alive = true; watcher = make_watcher k }

-- The watcher of a request that was refused.
abbrev pub refused_cell : Exn → WatchKind → Cell
refused_cell e k = record {
  alive = false;
  watcher = record (make_watcher k) { data_promise = exception e; data_delivered = true };
}

pub refused-CellInv : (e : Exn) (k : WatchKind) → CellInv (refused_cell e k)
unfolding make_watcher
refused-CellInv e k = record {
  consistent = record {
    data_unset = λ f. cc f;
    data_set = λ _ f. cc f;
    event_unset = λ _. refl;
    event_set = λ f. cc f;
  };
  no_event = λ f. cc f;
  data_done = λ _ f. cc f;
  event_done = λ _ f. cc f;
}

make_watcher-CellInv : (k : WatchKind) → CellInv (new_cell k)
unfolding make_watcher
make_watcher-CellInv k = record {
  consistent = record {
    data_unset = λ _. refl;
    data_set = λ e. cc e;
    event_unset = λ _. refl;
    event_set = λ e. cc e;
  };
  no_event = λ _. refl;
  data_done = λ e. cc e;
  event_done = λ e. cc e;
}

-- The cells after a watcher has got an address at which none was alive.
pub record Placed (cells cells' : List Cell) (addr : ℕ) (cell : Cell) : Type 0 where
  pub self : get_elem? cells' addr ≡ some cell
  pub others : (j : ℕ) → j ≢ addr → get_elem? cells' j ≡ get_elem? cells j
  pub was_dead : (c : Cell) → get_elem? cells addr ≡ some c → c.alive ≡ false

-- A watcher whose address another one may get.
abbrev pub IsDone : Cell → Type 0
IsDone c = CellInv c × (c.alive ≡ false)

-- What `place` leaves of the connection.
pub record AfterPlace (addr : ℕ) (cell : Cell) (c c' : Conn) : Type 0 where
  pub placed : Placed c.cells c'.cells addr cell
  pub same_watches : c'.watches ≡ c.watches
  pub past_done :
      ((i : ℕ) (b : Cell) → get_elem? c.cells i ≡ some b → CellInv b)
      → All IsDone c.past
      → All IsDone c'.past

place-new :
    (addr : ℕ) (cell : Cell) (c c' : Conn)
    → addr ≡ length c.cells
    → record c { cells = c.cells ++ cell ∷ [] } ≡ c'
    → AfterPlace addr cell c c'
place-new addr cell c c' last e = subst (AfterPlace addr cell c) e (record {
  placed = record {
    self = rw last (get_elem?-concat_self c.cells cell);
    others = λ j ne. get_elem?-concat_ne c.cells cell j (λ f. ne (f ∙ sym last));
    was_dead = λ b f. absurd (omega (arith, get_elem?-lt c.cells addr f, last));
  };
  same_watches = refl;
  past_done = λ _ h. h;
})

place-again :
    (addr : ℕ) (cell old : Cell) (c c' : Conn)
    → get_elem? c.cells addr ≡ some old
    → old.alive ≡ false
    → record c { cells = set c.cells addr cell; past = old ∷ c.past } ≡ c'
    → AfterPlace addr cell c c'
place-again addr cell old c c' found dead e = subst (AfterPlace addr cell c) e (record {
  placed = record {
    self = get_elem?-set_self c.cells addr cell (get_elem?-lt c.cells addr found);
    others = λ j ne. get_elem?-set_ne c.cells cell (λ f. ne (sym f));
    was_dead = λ b f. rw (← some_inj (sym found ∙ f)) dead;
  };
  same_watches = refl;
  past_done = λ inv h. ((inv addr old found, dead), h);
})

is_else :
    {A : Type 0} (b : Bool) (x : Option A) {y : A}
    → (if b then none else x) ≡ some y
    → (b ≡ false) × (x ≡ some y)
is_else true x e = absurd (none-some e)
is_else false x e = (refl, e)

place_found_lem :
    (addr : ℕ) (cell : Cell) (c c' : Conn) (found : Option Cell)
    → get_elem? c.cells addr ≡ found
    → place_found addr cell c found ≡ some c'
    → AfterPlace addr cell c c'
unfolding place_found
place_found_lem addr cell c c' none f e = elim (Bool-cases (addr == length c.cells)) [
  | inl last ↦ place-new addr cell c c' ((==_iff _ _).0 last) (some_inj (rw last at e))
  | inr other ↦ absurd (none-some (rw other at e))
]
place_found_lem addr cell c c' (some old) f e =
    let (dead, g) = is_else old.alive _ e in place-again addr cell old c c' f dead (some_inj g)

pub place_lem :
    (addr : ℕ) (cell : Cell) (c c' : Conn) → place addr cell c ≡ some c' → AfterPlace addr cell c c'
unfolding place
place_lem addr cell c c' e = place_found_lem addr cell c c' (get_elem? c.cells addr) refl e

module _ (cells cells' : List Cell) (addr : ℕ) (cell : Cell) (watches : List (ℕ × ℕ))
    (awaiting : List (ℕ × WatchKind)) (p : Placed cells cells' addr cell) where
  is_other : (j : ℕ) → Lives cells j → j ≢ addr
  is_other j (c, e, a) same = cc (p.was_dead c (subst (λ i. get_elem? cells i ≡ some c) same e), a)

  pub fresh_address : Inv cells watches awaiting → ¬ HasKey addr watches
  fresh_address v h = is_other addr (v.watched_lives addr h) refl

  waits-Lives : Inv cells watches awaiting → (j : ℕ) → HasKey j awaiting → Lives cells j
  waits-Lives v j h = let (c, e, a, d, t) = v.awaiting_fresh j h in (c, e, a)

  still-Lives : (j : ℕ) → Lives cells j → Lives cells' j
  still-Lives j l = (l.0, p.others j (is_other j l) ∙ l.1, l.2)

  still-Fresh : (j : ℕ) → Fresh cells j → Fresh cells' j
  still-Fresh j (b, e, a, d, t) = (b, p.others j (is_other j (b, e, a)) ∙ e, a, d, t)

  placed-cases :
      (j : ℕ) (b : Cell)
      → get_elem? cells' j ≡ some b
      → ((j ≡ addr) × (cell ≡ b)) ⊎ (get_elem? cells j ≡ some b)
  placed-cases j b e = elim (Bool-cases (j == addr)) [
    | inl same ↦
        let s : j ≡ addr = (==_iff j addr).0 same in
        inl (s, some_inj (sym p.self ∙ subst (λ i. get_elem? cells' i ≡ some b) s e))
    | inr differ ↦ inr (sym (p.others j (λ s. cc (differ, (==_iff j addr).1 s))) ∙ e)
  ]

  pub taken_step :
      (k : WatchKind)
      → cell ≡ new_cell k
      → Inv cells watches awaiting
      → Inv cells' ((addr, addr) ∷ watches) ((addr, k) ∷ awaiting)
  unfolding make_watcher
  taken_step k is v =
      let self : get_elem? cells' addr ≡ some (new_cell k) = p.self ∙ ap some is in
      record {
        cell_inv = λ j c e. elim (placed-cases j c e) [
          | inl (_, f) ↦ subst CellInv (sym is ∙ f) (make_watcher-CellInv k)
          | inr f ↦ v.cell_inv j c f
        ];
        own_key = (refl, v.own_key);
        distinct = (fresh_address v, v.distinct);
        watched_lives = λ j h. elim h [
          | inl e ↦ rw e (new_cell k, self, refl)
          | inr w ↦ still-Lives j (v.watched_lives j w)
        ];
        alive_watched = λ j c e a. elim (placed-cases j c e) [
          | inl (s, _) ↦ inl s
          | inr f ↦ inr (v.alive_watched j c f a)
        ];
        awaiting_fresh = λ j h. elim h [
          | inl e ↦ rw e (new_cell k, self, refl, refl, refl)
          | inr w ↦ still-Fresh j (v.awaiting_fresh j w)
        ];
        unset_awaits = λ j c e u. elim (placed-cases j c e) [
          | inl (s, _) ↦ inl s
          | inr f ↦ inr (v.unset_awaits j c f u)
        ];
        distinct_awaiting = ((λ h. is_other addr (waits-Lives v addr h) refl), v.distinct_awaiting);
      }

  pub refused_step :
      CellInv cell → cell.alive ≡ false → Inv cells watches awaiting → Inv cells' watches awaiting
  refused_step ci dead v = record {
    cell_inv = λ j b e. elim (placed-cases j b e) [
      | inl (_, f) ↦ subst CellInv f ci
      | inr f ↦ v.cell_inv j b f
    ];
    own_key = v.own_key;
    distinct = v.distinct;
    watched_lives = λ j h. still-Lives j (v.watched_lives j h);
    alive_watched = λ j b e a. elim (placed-cases j b e) [
      | inl (_, f) ↦ cc (f, dead, a)
      | inr f ↦ v.alive_watched j b f a
    ];
    awaiting_fresh = λ j h. still-Fresh j (v.awaiting_fresh j h);
    unset_awaits = λ j b e u. elim (placed-cases j b e) [
      | inl (_, f) ↦ absurd (ci.data_done dead (rw f u))
      | inr f ↦ v.unset_awaits j b f u
    ];
    distinct_awaiting = v.distinct_awaiting;
  }
