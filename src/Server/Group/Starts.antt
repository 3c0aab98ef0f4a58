-- ===== src/Server/Group/Starts.antt =====
-- The settings of an ensemble's servers, and starting them.
use zookeeper_cpp.Base.{
  ℕ, zero, suc, ◌+◌, true, false, [], ◌∷◌, some, ◌≡◌, refl, sym, subst, ◌∙◌, All, Bytes, inl, inr,
  Bool-cases,
}
use zookeeper_cpp.Error.Result.{ok}
use zookeeper_cpp.Server.Configuration.{Configuration, servers, is_minimal}
use zookeeper_cpp.Server.Group.{
  Info, Servers, Files, ServerGroup, make_ensemble, base_port_of, make_info, start_all_servers,
  start_server, start_rest, started,
}
use zookeeper_cpp.Server.Group.Ensemble.{IsReady, make_ensemble-AreWritten}
use zookeeper_cpp.Server.Group.Layout.{laid_out, addresses}
use zookeeper_cpp.Server.Group.Written.{AreWritten}
use zookeeper_cpp.Server.Run.{validate_settings}

-- The server has every server of the group in its settings.
abbrev pub Knows : Servers → ℕ × Info → Type 0
Knows group (id, x) = servers x.settings ≡ addresses group

-- Every server runs.
unfoldable pub all_run : Servers → Servers
all_run [] = []
all_run ((id, x) ∷ rest) = (id, record x { instance_runs = true }) ∷ all_run rest

addresses-AreWritten :
    (group xs ys : Servers) → AreWritten group xs ys → addresses ys ≡ addresses xs
unfolding addresses
addresses-AreWritten group [] [] h = refl
addresses-AreWritten group ((id, x) ∷ xs) ((id', y) ∷ ys) h =
    rw (h.0, h.1.peer_is, h.1.leader_is, addresses-AreWritten group xs ys h.2) refl
addresses-AreWritten group [] (y ∷ ys) h = elim h [ ]
addresses-AreWritten group (x ∷ xs) [] h = elim h [ ]

AreWritten-Knows : (group xs ys : Servers) → AreWritten group xs ys → All (Knows group) ys
AreWritten-Knows group [] [] h = tt
AreWritten-Knows group ((id, x) ∷ xs) ((id', y) ∷ ys) h =
    (h.1.servers_are, AreWritten-Knows group xs ys h.2)
AreWritten-Knows group [] (y ∷ ys) h = elim h [ ]
AreWritten-Knows group (x ∷ xs) [] h = elim h [ ]

saved-validate_settings :
    (c : Configuration) {file : Bytes} → c.source_file ≡ some file → validate_settings c ≡ ok tt
unfolding validate_settings
saved-validate_settings c saved = elim (Bool-cases (is_minimal c)) [
  | inl minimal ↦ rw (validate_settings, minimal) refl
  | inr other ↦ rw (validate_settings, other, saved) refl
]

abbrev Stopped : ℕ × Info → Type 0
Stopped (id, x) = x.instance_runs ≡ false

laid_out-Stopped :
    (c : Configuration) (directory : Bytes) (n idx port : ℕ)
    → All Stopped (laid_out c directory n idx port)
unfolding laid_out make_info
laid_out-Stopped c directory zero idx port = tt
laid_out-Stopped c directory (suc n) idx port = (refl, laid_out-Stopped c directory n (idx + 1) _)

start_all_servers-AreWritten :
    (group xs ys : Servers)
    → AreWritten group xs ys
    → All Stopped xs
    → start_all_servers ys ≡ (all_run ys, ok tt)
unfolding start_all_servers start_server start_rest started all_run
start_all_servers-AreWritten group [] [] h s = refl
start_all_servers-AreWritten group ((id, x) ∷ xs) ((id', y) ∷ ys) h s =
    rw
      (
        h.1.runs_is ∙ s.0,
        saved-validate_settings y.settings h.1.saved,
        start_all_servers-AreWritten group xs ys h.2 s.1,
      )
      refl
start_all_servers-AreWritten group [] (y ∷ ys) h s = elim h [ ]
start_all_servers-AreWritten group (x ∷ xs) [] h s = elim h [ ]

-- Where the file system does what it is asked to, the settings of each server of an ensemble list the
-- id, the peer port and the leader port of every server, and all servers can be started: their
-- settings pass the test, and after the call each runs.
pub make_ensemble-start_all_servers :
    (fs : Files) (size : ℕ) (c : Configuration)
    → IsReady fs size c
    → (g : ServerGroup) × (make_ensemble fs size c ≡ ok g)
      × All (Knows g.servers) g.servers
      × (start_all_servers g.servers ≡ (all_run g.servers, ok tt))
make_ensemble-start_all_servers fs size c r =
    let group : Servers = laid_out c r.directory size 0 (base_port_of c) in
    let (g, made, text, are) = make_ensemble-AreWritten fs size c r in
    (
      g,
      made,
      subst (λ known. All (λ p. servers p.1.settings ≡ known) g.servers)
          (sym (addresses-AreWritten group group g.servers are))
          (AreWritten-Knows group group g.servers are),
      start_all_servers-AreWritten group group g.servers are
          (laid_out-Stopped c r.directory size 0 (base_port_of c)),
    )
