-- ===== src/Server/Group/Layout.antt =====
-- What the first loop of `make_ensemble` lays out, and what adding the servers does to the settings.
use zookeeper_cpp.Base.{
  ℕ, zero, suc, ◌+◌, ◌<◌, List, [], ◌∷◌, ◌++◌, Option, some, ◌≡◌, refl, append-nil, append_assoc,
  Bytes, codes, decimal, length, lt→ltb, arith, sym, ◌∙◌,
}
use zookeeper_cpp.Error.Result.{ok}
use zookeeper_cpp.Server.Configuration.{
  Configuration, Setting, ensure_valid, servers, values, add_server, get_client_port, set_setting,
  set_line, on_line,
}
use zookeeper_cpp.Server.Group.{Info, Servers, make_info, make_infos, next_port, add_servers}
use zookeeper_cpp.Server.Ordered.Append.{
  IsAbove, insert-append, lookup-none, IsAbove-append, IsAbove-mono,
}

ensure_valid-ok : (id : ℕ) → 0 < id → id < 256 → ensure_valid id ≡ ok tt
unfolding ensure_valid
ensure_valid-ok id h small = rw (lt→ltb 0 id h, lt→ltb id 256 small) refl

module _ (base_settings : Configuration) (base_directory : Bytes) where
  -- The servers with the ids after `idx`, from a port on.
  unfoldable pub laid_out : ℕ → ℕ → ℕ → Servers
  unfolding make_info
  laid_out zero idx port = []
  laid_out (suc n) idx port =
      (idx + 1, make_info base_settings base_directory (idx + 1) port)
      ∷ laid_out n (idx + 1) (next_port (next_port (next_port port)))

  pub make_infos_lem :
      (n idx port : ℕ) (out : Servers)
      → idx + n < 256
      → IsAbove (idx + 1) out
      → make_infos base_settings base_directory n idx port out ≡ ok (out ++ laid_out n idx port)
  unfolding make_infos laid_out
  make_infos_lem zero idx port out small above = rw (append-nil out) refl
  make_infos_lem (suc n) idx port out small above =
      let x : Info = make_info base_settings base_directory (idx + 1) port in
      rw
        (
          ensure_valid-ok (idx + 1) (omega arith) (omega arith),
          insert-append (idx + 1) x out above,
          make_infos_lem n (idx + 1) (next_port (next_port (next_port port)))
              (out ++ (idx + 1, x) ∷ []) (omega arith)
              (IsAbove-append (idx + 1 + 1) out (idx + 1) x
                (IsAbove-mono (idx + 1) (idx + 1 + 1) out above (omega arith)) (omega arith)),
          append_assoc out ((idx + 1, x) ∷ [])
              (laid_out n (idx + 1) (next_port (next_port (next_port port)))),
        )
        refl

-- Ids in ascending order, above `lo`, that are valid.
abbrev pub IsAscending : ℕ → Servers → Type 0
IsAscending lo [] = Unit
IsAscending lo ((id, x) ∷ rest) = (lo < id) × (id < 256) × IsAscending id rest

-- The entries that a server's settings get for the servers of the group.
unfoldable pub addresses : Servers → List (ℕ × Option Bytes)
addresses [] = []
addresses ((id, x) ∷ rest) =
    (id, some (codes "127.0.0.1:" ++ decimal x.peer_port ++ codes ":" ++ decimal x.leader_port))
    ∷ addresses rest

-- The settings `d` are `c` with the servers added.
pub record Adds (group : Servers) (c d : Configuration) : Type 0 where
  pub servers_are : servers d ≡ servers c ++ addresses group
  pub port_is : get_client_port d ≡ get_client_port c
  pub directory_is : d.data_directory ≡ c.data_directory

values-append :
    (ps : List (ℕ × Setting Bytes)) (k : ℕ) (s : Setting Bytes)
    → values (ps ++ (k, s) ∷ []) ≡ values ps ++ (k, s.value) ∷ []
unfolding values
values-append [] k s = refl
values-append (p ∷ ps) k s = rw (values-append ps k s) refl

add_server-Adds :
    (id : ℕ) (x : Info) (c : Configuration)
    → 0 < id
    → id < 256
    → IsAbove id c.server_paths
    → (d : Configuration) × (add_server id (codes "127.0.0.1") x.peer_port x.leader_port c ≡ ok d)
      × Adds ((id, x) ∷ []) c d
      × IsAbove (suc id) d.server_paths
unfolding add_server set_setting set_line servers addresses get_client_port
add_server-Adds id x c h small above =
    let address : Bytes =
      codes "127.0.0.1:" ++ decimal x.peer_port ++ codes ":" ++ decimal x.leader_port in
    let s : Setting Bytes = on_line (length c.lines) address in
    (
      record c {
        server_paths = c.server_paths ++ (id, s) ∷ [];
        lines = c.lines ++ (codes "server." ++ decimal id ++ b'=' ∷ address) ∷ [];
      },
      rw
          (
            add_server,
            ensure_valid-ok id h small,
            lookup-none id c.server_paths above,
            insert-append id s c.server_paths above,
          )
          refl,
      record {
        servers_are = values-append c.server_paths id s;
        port_is = refl;
        directory_is = refl;
      },
      IsAbove-append (suc id) c.server_paths id s
          (IsAbove-mono id (suc id) c.server_paths above (omega arith)) (omega arith),
    )

pub add_servers-Adds :
    (group : Servers) (lo : ℕ) (c : Configuration)
    → IsAscending lo group
    → IsAbove (suc lo) c.server_paths
    → (d : Configuration) × (add_servers group c ≡ ok d) × Adds group c d
unfolding add_servers addresses
add_servers-Adds [] lo c ascending above = (
  c,
  refl,
  record { servers_are = sym (append-nil (servers c)); port_is = refl; directory_is = refl },
)
add_servers-Adds ((id, x) ∷ rest) lo c ascending above =
    let (d, added, a, above_d) =
      add_server-Adds id x c (omega (arith, ascending.0)) ascending.1
        (IsAbove-mono (suc lo) id c.server_paths above (omega (arith, ascending.0))) in
    let (e, rest_added, b) = add_servers-Adds rest id d ascending.2 above_d in
    (
      e,
      rw added rest_added,
      record {
        servers_are =
            b.servers_are
            ∙ rw a.servers_are
                (append_assoc (servers c) (addresses ((id, x) ∷ [])) (addresses rest));
        port_is = b.port_is ∙ a.port_is;
        directory_is = b.directory_is ∙ a.directory_is;
      },
    )
