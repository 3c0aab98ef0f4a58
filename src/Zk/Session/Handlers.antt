-- ===== src/Zk/Session/Handlers.antt =====
-- The steps of a session's watches: calls, completions, events and `close`, in every order that the C
-- library documents. It completes each request that it took once, with `zookeeper_close` what is left;
-- it triggers a watch only after the completion of its request, and forgets it then, but not for an event
-- of the session. What the code relies on beside that is that no new watcher gets the address of one
-- that the library has not forgotten.
use zookeeper_cpp.Base.{
  ℕ, ℤ, List, [], ◌∷◌, Option, none, some, ◌≡◌, inl, inr, refl, subst, sym, ◌∙◌, ◌==ℤ◌, All,
  Bool-cases, Option-cases, HasKey, Picks, here, extract-cases, none-some, if◌then◌else◌,
}
use zookeeper_cpp.Error.Code
use zookeeper_cpp.Error.Exn.{throw_error}
use zookeeper_cpp.Error.Result.{Result, ok, err, ok_inj, err_ok}
use zookeeper_cpp.Types.EventType
use zookeeper_cpp.Zk.Adaptors.{error_code_from_raw, event_from_raw, state_from_raw}
use zookeeper_cpp.Zk.Watch.{Event, WatchKind, WatchPayload}
use zookeeper_cpp.Zk.Zoo.{Zoo}
use zookeeper_cpp.Zk.Session.{
  Cell, Conn, watch, complete_watch, deliver_watch, deliver_all, close, close_event,
}
use zookeeper_cpp.Zk.Session.Invariant.{Inv}
use zookeeper_cpp.Zk.Session.New.{IsDone}
use zookeeper_cpp.Zk.Session.Steps.{event_step, data_step}

-- The connection, the watchers whose request waits in the library, and the addresses that it has
-- registered for events, of a watcher whose request was completed.
pub record System : Type 0 where
  pub conn : Conn
  pub awaiting : List (ℕ × WatchKind)
  pub registered : List (ℕ × WatchKind)

-- The requests that wait after a call, for its result.
abbrev pub after_call : Zoo → WatchKind → ℤ → ℕ → List (ℕ × WatchKind) → List (ℕ × WatchKind)
after_call zoo k rc_in addr awaiting =
    if error_code_from_raw zoo rc_in ==ℤ Code.ok then (addr, k) ∷ awaiting else awaiting

-- What is registered after an event, and after a `close`.
abbrev pub after_fire : ℤ → List (ℕ × WatchKind) → List (ℕ × WatchKind) → List (ℕ × WatchKind)
after_fire type_in registered rest =
    if event_from_raw type_in ==ℤ EventType.session then registered else rest

abbrev pub after_close : Option ℕ → List (ℕ × WatchKind) → List (ℕ × WatchKind)
after_close none registered = registered
after_close (some handle) registered = []

-- A call that starts a watch, a completion of one that waits, an event for a watch that is registered,
-- or a `close` that succeeds, when the library has completed all requests.
pub data Step (zoo : Zoo) (s : System) : System → Type 0 where
  watches :
      (k : WatchKind) (rc_in : ℤ) (addr : ℕ) (c : Conn)
      → ¬ HasKey addr s.registered
      → watch zoo k rc_in addr s.conn ≡ some c
      → Step zoo s (record {
        conn = c;
        awaiting = after_call zoo k rc_in addr s.awaiting;
        registered = s.registered;
      })
  completes :
      (i : ℕ) (k : WatchKind) (rest : List (ℕ × WatchKind)) (rc_in : ℤ) (payload : WatchPayload k)
      (c : Conn)
      → Picks (i, k) s.awaiting rest
      → complete_watch zoo k rc_in payload i s.conn ≡ some c
      → Step zoo s (record { conn = c; awaiting = rest; registered = (i, k) ∷ s.registered })
  fires :
      (i : ℕ) (k : WatchKind) (rest : List (ℕ × WatchKind)) (type_in state_in : ℤ) (c : Conn)
      → Picks (i, k) s.registered rest
      → deliver_watch zoo type_in state_in i s.conn ≡ some c
      → Step zoo s (record {
        conn = c;
        awaiting = s.awaiting;
        registered = after_fire type_in s.registered rest;
      })
  closes :
      (rc_in : ℤ) (c : Conn)
      → s.awaiting ≡ []
      → close zoo rc_in s.conn ≡ some (ok c)
      → Step zoo s (record {
        conn = c;
        awaiting = s.awaiting;
        registered = after_close s.conn.handle s.registered;
      })

-- A connection after its constructor, whatever the handle.
pub data Reach (zoo : Zoo) : System → Type 0 where
  start :
      (handle : Option ℕ)
      → Reach zoo (record {
        conn = record { handle = handle; cells = []; past = []; watches = [] };
        awaiting = [];
        registered = [];
      })
  next : {s t : System} → Reach zoo s → Step zoo s t → Reach zoo t

-- The invariant of a system.
pub record SystemInv (s : System) : Type 0 where
  pub core : Inv s.conn.cells s.conn.watches s.awaiting
  pub past_done : All IsDone s.conn.past
  pub apart : (i : ℕ) → HasKey i s.registered → ¬ HasKey i s.awaiting

-- What each handler gives in a state with the invariant: no fault, and the invariant again.
pub complete_step :
    (zoo : Zoo) (i : ℕ) (k : WatchKind) (rest : List (ℕ × WatchKind)) (rc_in : ℤ)
    (payload : WatchPayload k) (s : System)
    → Inv s.conn.cells s.conn.watches s.awaiting
    → Picks (i, k) s.awaiting rest
    → (c : Conn) × (complete_watch zoo k rc_in payload i s.conn ≡ some c)
      × (c.past ≡ s.conn.past)
      × Inv c.cells c.watches rest
unfolding complete_watch
complete_step zoo i k rest rc_in payload s v pick =
    let (cells', e, v', told) =
      data_step zoo k rc_in payload i s.conn.cells s.conn.watches s.awaiting rest v pick in
    (record s.conn { cells = cells' }, rw e refl, refl, v')

pub fire_step :
    (zoo : Zoo) (i : ℕ) (type_in state_in : ℤ) (s : System)
    → Inv s.conn.cells s.conn.watches s.awaiting
    → ¬ HasKey i s.awaiting
    → (c : Conn) × (deliver_watch zoo type_in state_in i s.conn ≡ some c)
      × (c.past ≡ s.conn.past)
      × Inv c.cells c.watches s.awaiting
unfolding deliver_watch
fire_step zoo i type_in state_in s v quiet = elim (extract-cases i s.conn.watches) [
  | inl (e, _) ↦ (s.conn, rw e refl, refl, v)
  | inr (ptr, rest, e, pick) ↦
      let (cells', f, v', ended) =
        event_step (record { kind = event_from_raw type_in; state = state_from_raw zoo state_in }) i
          ptr s.conn.cells s.conn.watches rest s.awaiting v pick quiet in
      (record s.conn { cells = cells'; watches = rest }, rw (e, f) refl, refl, v')
]

-- The loop of `close` is no fault and leaves no watch.
pub deliver_all_step :
    (ev : Event) (watches : List (ℕ × ℕ)) (cells : List Cell)
    → Inv cells watches []
    → (cells' : List Cell) × (deliver_all ev watches cells ≡ some cells') × Inv cells' [] []
unfolding deliver_all
deliver_all_step ev [] cells v = (cells, refl, v)
deliver_all_step ev ((k, ptr) ∷ ws) cells v =
    let (cells1, e, v1, ended) = event_step ev k ptr cells ((k, ptr) ∷ ws) ws [] v here (λ h. h) in
    let (cells2, f, v2) = deliver_all_step ev ws cells1 v1 in (cells2, rw (deliver_all, e) f, v2)

pub close_step :
    (zoo : Zoo) (rc_in : ℤ) (s : System)
    → Inv s.conn.cells s.conn.watches s.awaiting
    → s.awaiting ≡ []
    → (out : Result Conn) × (close zoo rc_in s.conn ≡ some out)
      × ((c : Conn) → out ≡ ok c → (c.past ≡ s.conn.past) × Inv c.cells c.watches s.awaiting)
      × ((c : Conn) (h : ℕ)
          → s.conn.handle ≡ some h
          → out ≡ ok c
          → (c.handle ≡ none) × (c.watches ≡ []))
unfolding close
close_step zoo rc_in s v quiet = elim (Option-cases s.conn.handle) [
  | inl e ↦ (
    ok s.conn,
    rw e refl,
    λ c same. rw (sym (ok_inj same)) (refl, v),
    λ c h f. absurd (none-some (sym e ∙ f)),
  )
  | inr (h, e) ↦ elim (Bool-cases (error_code_from_raw zoo rc_in ==ℤ Code.ok)) [
    | inl done ↦
        let (cells', f, v') =
          deliver_all_step close_event s.conn.watches s.conn.cells
            (subst (Inv s.conn.cells s.conn.watches) quiet v) in
        (
          ok (record { handle = none; cells = cells'; past = s.conn.past; watches = [] }),
          rw (e, done, f) refl,
          λ c same. rw (sym (ok_inj same), quiet) (refl, v'),
          λ c _ _ same. rw (sym (ok_inj same)) (refl, refl),
        )
    | inr failed ↦ (
      err (throw_error (error_code_from_raw zoo rc_in)),
      rw (e, failed) refl,
      λ c same. absurd (err_ok same),
      λ c _ _ same. absurd (err_ok same),
    )
  ]
]
