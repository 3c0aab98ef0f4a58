-- ===== src/Server/Group/Ports.antt =====
-- The ports of an ensemble.
use zookeeper_cpp.Base.{
  ℕ, zero, suc, ◌+◌, ◌*◌, ◌^◌, ◌≤◌, ◌<◌, List, [], ◌∷◌, Option, none, some, ◌≡◌, refl, sym, ◌∙◌, ap,
  Bytes, arith,
}
use zookeeper_cpp.Error.Result.{ok}
use zookeeper_cpp.Server.Configuration.{
  Configuration, Setting, get_client_port, set_client_port, set_data_directory, set_setting,
  set_line,
}
use zookeeper_cpp.Server.Group.{
  Servers, Files, ServerGroup, make_ensemble, base_port_of, make_info, next_port,
}
use zookeeper_cpp.Server.Group.Ensemble.{IsReady, make_ensemble-AreWritten}
use zookeeper_cpp.Server.Group.Layout.{laid_out}
use zookeeper_cpp.Server.Group.Written.{AreWritten}

-- The ports of the servers: for clients, for peers and for the leader.
unfoldable pub ports_of : Servers → List ℕ
ports_of [] = []
ports_of ((id, x) ∷ rest) = get_client_port x.settings ∷ x.peer_port ∷ x.leader_port ∷ ports_of rest

-- The numbers from `start` on.
unfoldable pub consecutive : ℕ → ℕ → List ℕ
consecutive zero start = []
consecutive (suc n) start = start ∷ consecutive n (suc start)

set_line-value {ℓ} :
    {T : Type ℓ} (s : Setting T) (x : T) (text : Bytes) (lines : List Bytes) (line : Option ℕ)
    → (set_line s (some x) text lines line).0.value ≡ some x
unfolding set_line
set_line-value s x text lines none = refl
set_line-value s x text lines (some l) = refl

settings-port :
    (c : Configuration) (path : Bytes) (port : ℕ)
    → get_client_port (set_data_directory (some path) (set_client_port (some port) c)) ≡ port
unfolding get_client_port set_client_port set_data_directory set_setting
settings-port c path port = rw (set_line-value c.client_port port _ c.lines c.client_port.line) refl

ports_of-AreWritten : (group xs ys : Servers) → AreWritten group xs ys → ports_of ys ≡ ports_of xs
unfolding ports_of
ports_of-AreWritten group [] [] h = refl
ports_of-AreWritten group ((id, x) ∷ xs) ((id', y) ∷ ys) h =
    rw (h.1.port_is, h.1.peer_is, h.1.leader_is, ports_of-AreWritten group xs ys h.2) refl
ports_of-AreWritten group [] (y ∷ ys) h = elim h [ ]
ports_of-AreWritten group (x ∷ xs) [] h = elim h [ ]

next_port_lem : (p : ℕ) → p + 1 < 2 ^ 16 → next_port p ≡ suc p
next_port_lem p h = omega arith

three_more : (n : ℕ) → 3 * suc n ≡ suc (suc (suc (3 * n)))
three_more n = omega arith

module _ (c : Configuration) (directory : Bytes) where
  ports_of-first :
      (n idx port : ℕ)
      → port + 2 < 2 ^ 16
      → ports_of (laid_out c directory (suc n) idx port)
        ≡ port
          ∷ suc port
          ∷ suc (suc port)
          ∷ ports_of (laid_out c directory n (idx + 1) (next_port (suc (suc port))))
  unfolding ports_of laid_out make_info
  ports_of-first n idx port h =
      rw
        (
          settings-port c _ port,
          next_port_lem port (omega arith),
          next_port_lem (suc port) (omega arith),
        )
        refl

  ports_of-laid_out :
      (n idx port : ℕ)
      → port + 3 * n ≤ 2 ^ 16
      → ports_of (laid_out c directory n idx port) ≡ consecutive (3 * n) port
  unfolding consecutive
  ports_of-laid_out zero idx port h = unfold ports_of laid_out in refl
  ports_of-laid_out (suc zero) idx port h =
      unfold ports_of laid_out in ports_of-first zero idx port (omega arith)
  ports_of-laid_out (suc (suc n)) idx port h =
      ports_of-first (suc n) idx port (omega arith)
      ∙ ap (λ ps. port ∷ suc port ∷ suc (suc port) ∷ ps)
          (ap (λ q. ports_of (laid_out c directory (suc n) (idx + 1) q))
              (next_port_lem (suc (suc port)) (omega arith))
            ∙ ports_of-laid_out (suc n) (idx + 1) (suc (suc (suc port))) (omega arith))
      ∙ ap (λ k. consecutive k port) (sym (three_more (suc n)))

-- Where the ports do not pass the end of their 16 bits, each port of an ensemble of servers is another
-- one: in the order of the ids, the ports for clients, peers and the leader are the numbers from the
-- client port of the settings on, or from 18500 on if that is the default.
pub make_ensemble-consecutive :
    (fs : Files) (size : ℕ) (c : Configuration)
    → IsReady fs size c
    → base_port_of c + 3 * size ≤ 2 ^ 16
    → (g : ServerGroup) × (make_ensemble fs size c ≡ ok g)
      × (ports_of g.servers ≡ consecutive (3 * size) (base_port_of c))
make_ensemble-consecutive fs size c r fits =
    let group : Servers = laid_out c r.directory size 0 (base_port_of c) in
    let (g, made, text, are) = make_ensemble-AreWritten fs size c r in
    (
      g,
      made,
      ports_of-AreWritten group group g.servers are
          ∙ ports_of-laid_out c r.directory size 0 (base_port_of c) fits,
    )
