-- ===== src/Zk/Session/Reach.antt =====
-- What holds after any history of a session's watches (src/zk/connection_zk.cpp).
use zookeeper_cpp.Base.{
  ℕ, ℤ, false, List, [], ◌∷◌, ◌==ℤ◌, Picks-rest, none, some, ◌≡◌, ◌≢◌, ◌⊎◌, inl, inr, refl, subst,
  sym, ◌∙◌, Bool-cases, get_elem?-All, HasKey, Picks, Picks-HasKey, Picks-gone, extract-cases,
  some_inj, none-some, All,
}
use zookeeper_cpp.Error.Code
use zookeeper_cpp.Error.Result.{ok}
use zookeeper_cpp.Zk.Adaptors.{error_code_from_raw, event_from_raw, state_from_raw}
use zookeeper_cpp.Zk.Promise.{unset}
use zookeeper_cpp.Zk.Request.{callback}
use zookeeper_cpp.Zk.Watch.{as_request, Event, WatchKind, WatchPayload}
use zookeeper_cpp.Zk.Zoo.{Zoo}
use zookeeper_cpp.Zk.Session.{
  Cell, Conn, complete_watch, deliver_watch, deliver_all, close, close_event,
}
use zookeeper_cpp.Zk.Session.New.{IsDone}
use zookeeper_cpp.Zk.Session.Starts.{watch_step}
use zookeeper_cpp.Types.EventType
use zookeeper_cpp.Zk.Session.Invariant.{CellInv, Inv}
use zookeeper_cpp.Zk.Session.Steps.{Ended, Told, event_step, data_step}
use zookeeper_cpp.Zk.Session.Handlers.{
  System, Step, watches, completes, fires, closes, Reach, start, next, after_fire, SystemInv,
  complete_step, fire_step, deliver_all_step, close_step,
}

after_fire-Picks :
    (type_in : ℤ) {i : ℕ} {k : WatchKind} {registered rest : List (ℕ × WatchKind)}
    → Picks (i, k) registered rest
    → (j : ℕ) → HasKey j (after_fire type_in registered rest)
    → HasKey j registered
after_fire-Picks type_in pick j h =
    elim (Bool-cases (event_from_raw type_in ==ℤ EventType.session)) [
      | inl same ↦ rw same at h
      | inr differ ↦ Picks-rest pick j (rw differ at h)
    ]

pub Step-Inv : {zoo : Zoo} {s t : System} → Step zoo s t → SystemInv s → SystemInv t
Step-Inv {zoo} {s} (watches k rc_in addr c free e) v = watch_step zoo k rc_in addr s c v free e
Step-Inv {zoo} {s} (completes i k rest rc_in payload c pick e) v =
    let (c', f, past, v') = complete_step zoo i k rest rc_in payload s v.core pick in
    rw (some_inj (sym e ∙ f)) (record {
      core = v';
      past_done = rw past v.past_done;
      apart = λ j r h. elim r [
        | inl same ↦ Picks-gone pick v.core.distinct_awaiting (subst (λ n. HasKey n rest) same h)
        | inr w ↦ v.apart j w (Picks-rest pick j h)
      ];
    })
Step-Inv {zoo} {s} (fires i k rest type_in state_in c pick e) v =
    let (c', f, past, v') =
      fire_step zoo i type_in state_in s v.core (v.apart i (Picks-HasKey pick)) in
    rw (some_inj (sym e ∙ f)) (record {
      core = v';
      past_done = rw past v.past_done;
      apart = λ j r. v.apart j (after_fire-Picks type_in pick j r);
    })
Step-Inv {zoo} {s} (closes rc_in c quiet e) v =
    let (out, f, v', _) = close_step zoo rc_in s v.core quiet in
    let (past, core) = v' c (some_inj (sym f ∙ e)) in
    record {
      core = core;
      past_done = rw past v.past_done;
      apart = λ j r h. subst (HasKey j) quiet h;
    }

pub Reach-Inv : {zoo : Zoo} {s : System} → Reach zoo s → SystemInv s
Reach-Inv (start handle) = record {
  core = record {
    cell_inv = λ i c e. absurd (none-some e);
    own_key = tt;
    distinct = tt;
    watched_lives = λ i h. absurd h;
    alive_watched = λ i c e. absurd (none-some e);
    awaiting_fresh = λ i h. absurd h;
    unset_awaits = λ i c e. absurd (none-some e);
    distinct_awaiting = tt;
  };
  past_done = tt;
  apart = λ i r. absurd r;
}
Reach-Inv (next r st) = Step-Inv st (Reach-Inv r)

-- In every state that calls, completions, events and `close` lead to, in every order that the C library
-- documents, if no watcher was made at an address that the library had still registered for events, as
-- it has that of a destroyed watcher after an event of the session: the completion of any watch whose
-- request waits, with whatever code and data, uses no destroyed watcher and throws no
-- `std::future_error`; the watch's data future gets what the callback of the plain operation would give,
-- and its watcher stays for the event.
pub Reach-complete :
    {zoo : Zoo} {s : System} {i : ℕ} {k : WatchKind} {rest : List (ℕ × WatchKind)} (rc_in : ℤ)
    (payload : WatchPayload k)
    → Reach zoo s
    → Picks (i, k) s.awaiting rest
    → (c : Conn) × (complete_watch zoo k rc_in payload i s.conn ≡ some c)
      × Told (callback zoo (as_request k) rc_in payload) i c.cells
unfolding complete_watch
Reach-complete {zoo} {s} {i} {k} {rest} rc_in payload r pick =
    let (cells', e, v', told) =
      data_step zoo k rc_in payload i s.conn.cells s.conn.watches s.awaiting rest (Reach-Inv r).core
        pick in
    (record s.conn { cells = cells' }, rw e refl, told)

-- A destroyed watcher whose data future has a result, and whose event future has one if it was handed
-- out.
abbrev pub IsResolved : Cell → Type 0
IsResolved c =
    (c.alive ≡ false)
    × (c.watcher.data_promise ≢ unset)
    × ((c.watcher.event_taken ≡ false) ⊎ (c.watcher.event_promise ≢ unset))

dead-IsResolved : (c : Cell) → CellInv c → c.alive ≡ false → IsResolved c
dead-IsResolved c v d = (
  d,
  v.data_done d,
  elim (Bool-cases c.watcher.event_taken) [
    | inl taken ↦ inr (v.event_done d taken)
    | inr free ↦ inl free
  ],
)

past-IsResolved : (past : List Cell) → All IsDone past → All IsResolved past
past-IsResolved [] h = tt
past-IsResolved (c ∷ past) h = (dead-IsResolved c h.0.0 h.0.1, past-IsResolved past h.1)

close-done :
    (zoo : Zoo) (rc_in : ℤ) (c : Conn) (h : ℕ) (cells : List Cell)
    → c.handle ≡ some h
    → error_code_from_raw zoo rc_in ≡ Code.ok
    → deliver_all close_event c.watches c.cells ≡ some cells
    → close zoo rc_in c
      ≡ some (ok (record { handle = none; cells = cells; past = c.past; watches = [] }))
unfolding close
close-done zoo rc_in c h cells opened closed e = rw (opened, closed, e) refl

-- In a reachable state in which no request waits, `close` of an open connection that the library closes
-- is no fault; after it the handle is gone, no watch is left, and every watcher that was ever made is
-- destroyed with a result in each future that was handed out for it. A state is reachable if no watcher
-- was made at an address that the library had still registered for events.
pub Reach-close :
    {zoo : Zoo} {s : System} {h : ℕ} (rc_in : ℤ)
    → Reach zoo s
    → s.awaiting ≡ []
    → s.conn.handle ≡ some h
    → error_code_from_raw zoo rc_in ≡ Code.ok
    → (c : Conn) × (close zoo rc_in s.conn ≡ some (ok c))
      × (c.handle ≡ none)
      × (c.watches ≡ [])
      × All IsResolved c.cells
      × All IsResolved c.past
Reach-close {zoo} {s} {h} rc_in r quiet opened closed =
    let (cells', f, v) =
      deliver_all_step close_event s.conn.watches s.conn.cells
        (subst (Inv s.conn.cells s.conn.watches) quiet (Reach-Inv r).core) in
    (
      record { handle = none; cells = cells'; past = s.conn.past; watches = [] },
      close-done zoo rc_in s.conn h cells' opened closed f,
      refl,
      refl,
      get_elem?-All cells' (λ i cell e. elim (Bool-cases cell.alive) [
        | inl a ↦ absurd (v.alive_watched i cell e a)
        | inr d ↦ dead-IsResolved cell (v.cell_inv i cell e) d
      ]),
      past-IsResolved s.conn.past (Reach-Inv r).past_done,
    )

-- An address that the map does not have: the event is dropped.
deliver_watch-unknown :
    (zoo : Zoo) (i : ℕ) (type_in state_in : ℤ) (c : Conn)
    → ¬ HasKey i c.watches
    → deliver_watch zoo type_in state_in i c ≡ some c
unfolding deliver_watch
deliver_watch-unknown zoo i type_in state_in c absent = elim (extract-cases i c.watches) [
  | inl (e, _) ↦ rw e refl
  | inr (ptr, rest, e, pick) ↦ absurd (absent (Picks-HasKey pick))
]

-- In a reachable state, an event for a watch whose request does not wait is delivered: that watcher's
-- event future gets the type and state of the event, as they are translated, the watcher is destroyed
-- and its entry is gone, and any further event for it changes nothing. A state is reachable if no watcher
-- was made at an address that the library had still registered for events.
pub Reach-event :
    {zoo : Zoo} {s : System} {i : ℕ} (type_in state_in : ℤ)
    → Reach zoo s
    → HasKey i s.conn.watches
    → ¬ HasKey i s.awaiting
    → (c : Conn) × (deliver_watch zoo type_in state_in i s.conn ≡ some c)
      × Ended
          (record { kind = event_from_raw type_in; state = state_from_raw zoo state_in })
          i
          c.cells
      × ((type2 state2 : ℤ) → deliver_watch zoo type2 state2 i c ≡ some c)
unfolding deliver_watch
Reach-event {zoo} {s} {i} type_in state_in r watched quiet =
    let v : Inv s.conn.cells s.conn.watches s.awaiting = (Reach-Inv r).core in
    let ev : Event = record {
      kind = event_from_raw type_in;
      state = state_from_raw zoo state_in;
    } in
    elim (extract-cases i s.conn.watches) [
      | inl (e, absent) ↦ absurd (absent watched)
      | inr (ptr, rest, e, pick) ↦
          let (cells', f, v', ended) =
            event_step ev i ptr s.conn.cells s.conn.watches rest s.awaiting v pick quiet in
          (
            record s.conn { cells = cells'; watches = rest },
            rw (e, f) refl,
            ended,
            λ type2 state2. deliver_watch-unknown zoo i type2 state2 _ (Picks-gone pick v.distinct),
          )
    ]
