-- ===== src/Zk/Session/Starts.antt =====
-- A call of `watch` keeps the invariant of a session, if the new watcher's address is not registered.
use zookeeper_cpp.Base.{
  ℕ, ℤ, ◌∷◌, Option, none, some, ◌≡◌, inl, inr, refl, subst, ◌==ℤ◌, Bool-cases, HasKey, some_inj,
  none-some,
}
use zookeeper_cpp.Error.Code
use zookeeper_cpp.Error.Exn.{Exn, throw_error}
use zookeeper_cpp.Zk.Adaptors.{error_code_from_raw}
use zookeeper_cpp.Zk.Watch.{WatchKind, make_watcher, deliver_data}
use zookeeper_cpp.Zk.Zoo.{Zoo}
use zookeeper_cpp.Zk.Session.{Cell, Conn, place, emplace, add_entry, refuse, watch}
use zookeeper_cpp.Zk.Session.Handlers.{after_call, System, SystemInv}
use zookeeper_cpp.Zk.Session.New.{
  AfterPlace, place_lem, emplace_lem, fresh_address, taken_step, refused_step, new_cell,
  refused_cell, refused-CellInv,
}

add_entry-some :
    (addr : ℕ) (placed : Option Conn) (c : Conn)
    → add_entry addr placed ≡ some c
    → (b : Conn) × (placed ≡ some b) × (record b { watches = emplace addr addr b.watches } ≡ c)
unfolding add_entry
add_entry-some addr none c e = absurd (none-some e)
add_entry-some addr (some b) c e = (b, refl, some_inj e)

-- A call that the library takes, and one that it refuses, keep the invariant.
taken_watch :
    (zoo : Zoo) (k : WatchKind) (addr : ℕ) (s : System) (c : Conn)
    → SystemInv s
    → ¬ HasKey addr s.registered
    → add_entry addr (place addr (new_cell k) s.conn) ≡ some c
    → SystemInv (record { conn = c; awaiting = (addr, k) ∷ s.awaiting; registered = s.registered })
taken_watch zoo k addr s c v free e =
    let (b, f, g) = add_entry-some addr (place addr (new_cell k) s.conn) c e in
    let a : AfterPlace addr (new_cell k) s.conn b = place_lem addr (new_cell k) s.conn b f in
    let absent : ¬ HasKey addr s.conn.watches =
      fresh_address s.conn.cells b.cells addr (new_cell k) s.conn.watches s.awaiting a.placed
        v.core in
    subst
      (λ (x : Conn).
        SystemInv
          (record { conn = x; awaiting = (addr, k) ∷ s.awaiting; registered = s.registered }))
      g
      (record {
        core =
            rw (a.same_watches, emplace_lem addr addr s.conn.watches absent)
              (taken_step s.conn.cells b.cells addr (new_cell k) s.conn.watches s.awaiting a.placed
                k refl v.core);
        past_done = a.past_done v.core.cell_inv v.past_done;
        apart = λ i r h. elim h [
          | inl same ↦ free (subst (λ j. HasKey j s.registered) same r)
          | inr w ↦ v.apart i r w
        ];
      })

refused_watch :
    (x : Exn) (k : WatchKind) (addr : ℕ) (s : System) (c : Conn)
    → SystemInv s
    → place addr (refused_cell x k) s.conn ≡ some c
    → SystemInv (record { conn = c; awaiting = s.awaiting; registered = s.registered })
refused_watch x k addr s c v e =
    let cell : Cell = refused_cell x k in
    let a : AfterPlace addr cell s.conn c = place_lem addr cell s.conn c e in
    record {
      core = rw a.same_watches (
          refused_step s.conn.cells c.cells addr cell s.conn.watches s.awaiting a.placed
            (refused-CellInv x k) refl v.core);
      past_done = a.past_done v.core.cell_inv v.past_done;
      apart = v.apart;
    }

pub watch_step :
    (zoo : Zoo) (k : WatchKind) (rc_in : ℤ) (addr : ℕ) (s : System) (c : Conn)
    → SystemInv s
    → ¬ HasKey addr s.registered
    → watch zoo k rc_in addr s.conn ≡ some c
    → SystemInv (record {
      conn = c;
      awaiting = after_call zoo k rc_in addr s.awaiting;
      registered = s.registered;
    })
unfolding watch refuse deliver_data make_watcher
watch_step zoo k rc_in addr s c v free e =
    elim (Bool-cases (error_code_from_raw zoo rc_in ==ℤ Code.ok)) [
      | inl taken ↦ rw taken (taken_watch zoo k addr s c v free (rw taken at e))
      | inr refused ↦ rw refused (
          refused_watch (throw_error (error_code_from_raw zoo rc_in)) k addr s c v
            (rw refused at e))
    ]
