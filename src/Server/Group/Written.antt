-- ===== src/Server/Group/Written.antt =====
-- What the second loop of `make_ensemble` makes of the servers, where the file system does what it is
-- asked to.
use zookeeper_cpp.Base.{
  ℕ, Bool, true, false, List, [], ◌∷◌, ◌++◌, some, ◌≡◌, refl, append-nil, append_assoc, Bytes,
  codes, decimal, join, join_rest, sym, ◌∙◌, All, if◌then◌else◌,
}
use zookeeper_cpp.Error.Result.{ok}
use zookeeper_cpp.Process.System.{done}
use zookeeper_cpp.Server.Configuration.{servers, values, get_client_port}
use zookeeper_cpp.Server.Group.{
  Info, Servers, Files, File, ServerGroup, create_directory, save_id_file, write_server,
  write_servers,
}
use zookeeper_cpp.Server.Group.Layout.{IsAscending, addresses, add_servers-Adds}
use zookeeper_cpp.Server.Load.{save, save_file}

-- Every directory is made and every file written.
pub record Works (fs : Files) : Type 0 where
  pub makes : (path : Bytes) → fs.mkdir path ≡ done tt
  pub takes : (path : Bytes) → fs.writes path ≡ true

-- The server `y` is `x` with the servers of the group in its settings, which are saved.
pub record IsWritten (group : Servers) (x y : Info) : Type 0 where
  pub port_is : get_client_port y.settings ≡ get_client_port x.settings
  pub peer_is : y.peer_port ≡ x.peer_port
  pub leader_is : y.leader_port ≡ x.leader_port
  pub servers_are : servers y.settings ≡ addresses group
  pub file : Bytes
  pub saved : y.settings.source_file ≡ some file
  pub runs_is : y.instance_runs ≡ x.instance_runs

abbrev pub AreWritten : Servers → Servers → Servers → Type 0
AreWritten group [] [] = Unit
AreWritten group ((id, x) ∷ xs) ((id', y) ∷ ys) =
    (id' ≡ id) × IsWritten group x y × AreWritten group xs ys
AreWritten group _ _ = ⊥

-- The hosts of the connection string.
unfoldable pub hosts_of : Servers → List Bytes
hosts_of [] = []
hosts_of ((id, x) ∷ rest) =
    (codes "127.0.0.1:" ++ decimal (get_client_port x.settings)) ∷ hosts_of rest

abbrev pub HasNoServers : ℕ × Info → Type 0
HasNoServers (id, x) = x.settings.server_paths ≡ []

-- The text that a round appends, before the rest.
host_text :
    (first : Bool) (conn_str host : Bytes) (rest : List Bytes)
    → (conn_str ++ (if first then [] else codes ",") ++ codes "127.0.0.1:" ++ host)
        ++ join_rest (codes ",") rest
      ≡ conn_str
        ++ (if first
            then join (codes ",") ((codes "127.0.0.1:" ++ host) ∷ rest)
            else join_rest (codes ",") ((codes "127.0.0.1:" ++ host) ∷ rest))
unfolding join
host_text true conn_str host rest = simp append_assoc
host_text false conn_str host rest = simp append_assoc

module _ (fs : Files) (works : Works fs) (group : Servers) (ascending : IsAscending 0 group) where
  write_server-IsWritten :
      (id : ℕ) (x : Info)
      → x.settings.server_paths ≡ []
      → (y : Info) × (files : List File) × (write_server fs group id x ≡ ok (y, files))
        × IsWritten group x y
  unfolding write_server create_directory save_id_file save_file servers values get_client_port
  write_server-IsWritten id x none_yet =
      let (d, added, a) = add_servers-Adds group 0 x.settings ascending (rw none_yet tt) in
      let file : Bytes = x.path ++ codes "/settings.cfg" in
      (
        record x { settings = record d { source_file = some file } },
        (x.path ++ codes "/data/myid", decimal id ++ codes "\n") ∷ (file, save d) ∷ [],
        rw
            (
              added,
              works.makes x.path,
              works.makes (x.path ++ codes "/data"),
              works.takes (x.path ++ codes "/data/myid"),
              works.takes file,
            )
            refl,
        record {
          port_is = a.port_is;
          peer_is = refl;
          leader_is = refl;
          servers_are = a.servers_are ∙ rw none_yet refl;
          file = file;
          saved = refl;
          runs_is = refl;
        },
      )

  pub write_servers-AreWritten :
      (rest : Servers) (first : Bool) (conn_str : Bytes)
      → All HasNoServers rest
      → (g : ServerGroup) × (write_servers fs group rest first conn_str ≡ ok g)
        × (g.conn_string
            ≡ conn_str
              ++ (if first
                  then join (codes ",") (hosts_of rest)
                  else join_rest (codes ",") (hosts_of rest)))
        × AreWritten group rest g.servers
  unfolding write_servers hosts_of join
  write_servers-AreWritten [] true conn_str h = (_, refl, sym (append-nil conn_str), tt)
  write_servers-AreWritten [] false conn_str h = (_, refl, sym (append-nil conn_str), tt)
  write_servers-AreWritten ((id, x) ∷ rest) first conn_str h =
      let (y, files, written, w) = write_server-IsWritten id x h.0 in
      let (g, later, text, ws) =
        write_servers-AreWritten rest false
          (conn_str
            ++ (if first then [] else codes ",")
            ++ codes "127.0.0.1:"
            ++ decimal (get_client_port y.settings))
          h.1 in
      (
        record {
          servers = (id, y) ∷ g.servers;
          conn_string = g.conn_string;
          files = files ++ g.files;
        },
        rw (written, later) refl,
        text
            ∙ rw w.port_is
                (host_text first conn_str (decimal (get_client_port x.settings)) (hosts_of rest)),
        (refl, w, ws),
      )
