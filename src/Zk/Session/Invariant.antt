-- ===== src/Zk/Session/Invariant.antt =====
-- What holds between the watchers, the map of watches, and the requests that the C library has taken.
use zookeeper_cpp.Base.{
  ℕ, Bool, true, false, List, Option, some, ◌<◌, ◌≡◌, ◌≢◌, inl, inr, subst, sym, ◌∙◌, arith, length,
  get_elem?, set, HasKey, Distinct, Picks, there, here, Picks-HasKey, Picks-rest, Picks-other,
  Picks-gone, Picks-Distinct, get_elem?-lt, get_elem?-set_ne, get_elem?-set_cases, All,
}
use zookeeper_cpp.Zk.Promise.{unset, value}
use zookeeper_cpp.Zk.Watch.{Event, WatchKind, Watcher}
use zookeeper_cpp.Zk.Watch.Deliver.{IsConsistent, data_after}
use zookeeper_cpp.Zk.Session.{Cell, use_watcher}

-- One watcher: its flags agree with its promises; while it is alive its event is not delivered; once it
-- is destroyed nobody waits for a result of it that can no longer come.
pub record CellInv (c : Cell) : Type 0 where
  pub consistent : IsConsistent c.watcher
  pub no_event : c.alive ≡ true → c.watcher.event_delivered ≡ false
  pub data_done : c.alive ≡ false → c.watcher.data_promise ≢ unset
  pub event_done : c.alive ≡ false → c.watcher.event_taken ≡ true → c.watcher.event_promise ≢ unset

-- The watcher at an address is alive.
abbrev pub Lives : List Cell → ℕ → Type 0
Lives cells i = (c : Cell) × (get_elem? cells i ≡ some c) × (c.alive ≡ true)

-- The watcher at an address is alive and has had no completion.
abbrev pub Fresh : List Cell → ℕ → Type 0
Fresh cells i =
    (c : Cell) × (get_elem? cells i ≡ some c)
    × (c.alive ≡ true)
    × (c.watcher.data_delivered ≡ false)
    × (c.watcher.event_taken ≡ false)

-- The cells, the map of watches, and the addresses of the watchers whose request waits in the library.
pub record Inv (cells : List Cell) (watches : List (ℕ × ℕ)) (awaiting : List (ℕ × WatchKind))
    : Type 0 where
  pub cell_inv : (i : ℕ) (c : Cell) → get_elem? cells i ≡ some c → CellInv c
  pub own_key : All (λ (e : ℕ × ℕ). e.1 ≡ e.0) watches
  pub distinct : Distinct watches
  pub watched_lives : (i : ℕ) → HasKey i watches → Lives cells i
  pub alive_watched :
      (i : ℕ) (c : Cell) → get_elem? cells i ≡ some c → c.alive ≡ true → HasKey i watches
  pub awaiting_fresh : (i : ℕ) → HasKey i awaiting → Fresh cells i
  pub unset_awaits :
      (i : ℕ) (c : Cell)
      → get_elem? cells i ≡ some c
      → c.watcher.data_promise ≡ unset
      → HasKey i awaiting
  pub distinct_awaiting : Distinct awaiting

pub own_key-Picks :
    {k v : ℕ} {ws rest : List (ℕ × ℕ)}
    → Picks (k, v) ws rest
    → All (λ (e : ℕ × ℕ). e.1 ≡ e.0) ws
    → (v ≡ k) × All (λ (e : ℕ × ℕ). e.1 ≡ e.0) rest
own_key-Picks here a = (a.0, a.1)
own_key-Picks (there p) a = let (e, r) = own_key-Picks p a.1 in (e, (a.0, r))

pub use_watcher_lem :
    (i : ℕ) (alive : Bool) (f : Watcher → Option Watcher) (cells : List Cell) (c : Cell)
    (w : Watcher)
    → get_elem? cells i ≡ some c
    → c.alive ≡ true
    → f c.watcher ≡ some w
    → use_watcher i alive f cells ≡ some (set cells i (record { alive = alive; watcher = w }))
unfolding use_watcher
use_watcher_lem i alive f cells c w e a h = rw (e, use_watcher, a, h)

pub Lives-lt : (cells : List Cell) (i : ℕ) → Lives cells i → i < length cells
Lives-lt cells i l = get_elem?-lt cells i l.1

-- A watcher that the event was delivered to.
abbrev pub after_event : Event → Watcher → Watcher
after_event ev w = record w {
  event_delivered = true;
  event_promise = value ev;
  data_delivered = true;
  data_promise = data_after w;
}

data_after-ne-unset : (w : Watcher) → IsConsistent w → data_after w ≢ unset
data_after-ne-unset w v = ground arith

pub after_event-CellInv :
    (ev : Event) (c : Cell)
    → CellInv c
    → CellInv (record { alive = false; watcher = after_event ev c.watcher })
after_event-CellInv ev c v = record {
  consistent = record {
    data_unset = λ e. cc e;
    data_set = λ _. data_after-ne-unset c.watcher v.consistent;
    event_unset = λ e. cc e;
    event_set = λ _ e. cc e;
  };
  no_event = λ e. cc e;
  data_done = λ _. data_after-ne-unset c.watcher v.consistent;
  event_done = λ _ _ e. cc e;
}

-- A write of one watcher, destroyed, with its entry of the map gone.
module _ (cells : List Cell) (watches rest : List (ℕ × ℕ)) (awaiting : List (ℕ × WatchKind)) where
  pub destroyed-Inv :
      (k ptr : ℕ) (c' : Cell)
      → Inv cells watches awaiting
      → Picks (k, ptr) watches rest
      → ¬ HasKey k awaiting
      → CellInv c'
      → c'.alive ≡ false
      → Inv (set cells k c') rest awaiting
  destroyed-Inv k ptr c' v pick quiet ci dead =
      let lt : k < length cells = Lives-lt cells k (v.watched_lives k (Picks-HasKey pick)) in
      let other : (j : ℕ) → j ≢ k → get_elem? (set cells k c') j ≡ get_elem? cells j =
        λ j ne. get_elem?-set_ne cells c' (λ e. ne (sym e)) in
      record {
        cell_inv = λ j c e. elim (get_elem?-set_cases cells k j c' e) [
          | inl (_, f) ↦ subst CellInv f ci
          | inr (_, f) ↦ v.cell_inv j c f
        ];
        own_key = (own_key-Picks pick v.own_key).1;
        distinct = Picks-Distinct pick v.distinct;
        watched_lives = λ j h.
            let (c, e, a) = v.watched_lives j (Picks-rest pick j h) in
            (
              c,
              other j (λ same. Picks-gone pick v.distinct (subst (λ i. HasKey i rest) same h)) ∙ e,
              a,
            );
        alive_watched = λ j c e a. elim (get_elem?-set_cases cells k j c' e) [
          | inl (_, f) ↦ cc (f, dead, a)
          | inr (ne, f) ↦ Picks-other pick j ne (v.alive_watched j c f a)
        ];
        awaiting_fresh = λ j h.
            let (c, e, a, d, t) = v.awaiting_fresh j h in
            (c, other j (λ same. quiet (subst (λ i. HasKey i awaiting) same h)) ∙ e, a, d, t);
        unset_awaits = λ j c e u. elim (get_elem?-set_cases cells k j c' e) [
          | inl (_, f) ↦ absurd (ci.data_done dead (rw f u))
          | inr (ne, f) ↦ v.unset_awaits j c f u
        ];
        distinct_awaiting = v.distinct_awaiting;
      }
