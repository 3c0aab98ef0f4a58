-- ===== src/Server/Group.antt =====
-- `server_group` (src/zk/server/server_group.cpp): making an ensemble, and starting its servers.
--
-- What the file system does with a path is a parameter. A server's instance is whether it runs, and a
-- group carries the files that making it has written, each with its text.
pub mod Layout
pub mod Written
pub mod Ensemble
pub mod Hosts
pub mod Ports
pub mod Starts
use zookeeper_cpp.Base.{
  ℕ, zero, suc, ◌+◌, ◌%◌, ◌^◌, Bool, true, false, List, [], ◌∷◌, ◌++◌, Option, none, some, Bytes,
  codes, decimal, ltb, ◌==◌, if◌then◌else◌,
}
use zookeeper_cpp.Error.Exn.{invalid_argument, runtime_error, system_error}
use zookeeper_cpp.Error.Result.{Result, ok, err, ◌>>=◌, ◌>>◌}
use zookeeper_cpp.Process.System.{Answer, done, failed}
use zookeeper_cpp.Server.Configuration.{
  Configuration, default_client_port, ensure_valid, get_client_port, set_client_port,
  set_data_directory, add_server,
}
use zookeeper_cpp.Server.Load.{save, save_file}
use zookeeper_cpp.Server.Ordered.{insert}
use zookeeper_cpp.Server.Run.{validate_settings}

-- `server_group::info`.
pub record Info : Type 0 where
  pub settings : Configuration
  pub name : Bytes
  pub path : Bytes
  pub peer_port : ℕ
  pub leader_port : ℕ
  pub instance_runs : Bool

abbrev pub Servers : Type 0
Servers = List (ℕ × Info)

-- The answers of `mkdir`, and whether a stream to a file takes what is written.
pub record Files : Type 0 where
  pub mkdir : Bytes → Answer (Unit {0})
  pub writes : Bytes → Bool

-- A file that was written, with its text.
abbrev pub File : Type 0
File = Bytes × Bytes

pub record ServerGroup : Type 0 where
  pub servers : Servers
  pub conn_string : Bytes
  pub files : List File

-- `create_directory`.
unfoldable pub create_directory : Answer (Unit {0}) → Result (Unit {0})
create_directory (done u) = ok tt
create_directory (failed e) = err (system_error e [])

-- `save_id_file`, for whether the file can be opened.
unfoldable pub save_id_file : Bytes → ℕ → Bool → Result File
save_id_file path id false = err (runtime_error (codes "IO failure"))
save_id_file path id true = ok (path, decimal id ++ codes "\n")

-- A `std::uint16_t` after `++`.
abbrev pub next_port : ℕ → ℕ
next_port port = (port + 1) % 2 ^ 16

-- One round of the loop that lays the servers out, after the test of the id.
unfoldable pub make_info : Configuration → Bytes → ℕ → ℕ → Info
make_info base_settings base_directory id base_port =
    let name : Bytes = decimal id in
    let path : Bytes = base_directory ++ codes "/" ++ name in
    record {
      settings =
          set_data_directory (some (path ++ codes "/data"))
            (set_client_port (some base_port) base_settings);
      name = name;
      path = path;
      peer_port = next_port base_port;
      leader_port = next_port (next_port base_port);
      instance_runs = false;
    }

-- The loop, for the rounds that are left.
unfoldable pub make_infos : Configuration → Bytes → ℕ → ℕ → ℕ → Servers → Result Servers
unfolding make_info
make_infos base_settings base_directory zero idx base_port out = ok out
make_infos base_settings base_directory (suc n) idx base_port out =
    let id : ℕ = idx + 1 in
    let x : Info = make_info base_settings base_directory id base_port in
    ensure_valid id
    >> make_infos base_settings base_directory n (idx + 1)
        (next_port (next_port (next_port base_port))) (insert ltb id x out)

-- The inner loop: each server of the group is added to the settings.
unfoldable pub add_servers : Servers → Configuration → Result Configuration
add_servers [] settings = ok settings
add_servers ((id, srvr) ∷ rest) settings =
    add_server id (codes "127.0.0.1") srvr.peer_port srvr.leader_port settings >>= add_servers rest

-- A round of the loop that writes the files of the servers, but for the connection string.
unfoldable pub write_server : Files → Servers → ℕ → Info → Result (Info × List File)
unfolding add_servers create_directory save_id_file
write_server fs servers id srvr =
    let data_path : Bytes = srvr.path ++ codes "/data" in
    let id_file : Bytes = srvr.path ++ codes "/data/myid" in
    let settings_file : Bytes = srvr.path ++ codes "/settings.cfg" in
    add_servers servers srvr.settings >>= λ settings.
    create_directory (fs.mkdir srvr.path)
    >> create_directory (fs.mkdir data_path)
    >> (save_id_file id_file id (fs.writes id_file) >>= λ written.
        save_file settings_file (fs.writes settings_file) settings >>= λ saved.
        ok (record srvr { settings = saved }, written ∷ (settings_file, save settings) ∷ []))

-- The loop, for the servers that are left, with the flag `first` and the connection string: the servers
-- and files of these rounds, and the string.
unfoldable pub write_servers : Files → Servers → Servers → Bool → Bytes → Result ServerGroup
unfolding write_server
write_servers fs servers [] first conn_str =
    ok (record { servers = []; conn_string = conn_str; files = [] })
write_servers fs servers ((id, srvr) ∷ rest) first conn_str =
    write_server fs servers id srvr >>= λ x.
    write_servers fs servers rest false (
      conn_str
      ++ (if first then [] else codes ",")
      ++ codes "127.0.0.1:"
      ++ decimal (get_client_port x.0.settings))
    >>= λ later. ok (record {
      servers = (id, x.0) ∷ later.servers;
      conn_string = later.conn_string;
      files = x.1 ++ later.files;
    })

-- The first port.
unfoldable pub base_port_of : Configuration → ℕ
base_port_of base_settings =
    if get_client_port base_settings == default_client_port
    then 18500
    else get_client_port base_settings

make_group : Files → Bytes → Servers → Result ServerGroup
unfolding write_servers create_directory
make_group fs base_directory servers =
    create_directory (fs.mkdir base_directory)
    >> (write_servers fs servers servers true (codes "zk://") >>= λ out.
        ok (record out { conn_string = out.conn_string ++ codes "/" }))

make_ensemble_in : Files → ℕ → Configuration → Option Bytes → Result ServerGroup
unfolding make_infos make_group base_port_of
make_ensemble_in fs size base_settings none =
    err (invalid_argument (codes "Settings must specify a base directory"))
make_ensemble_in fs size base_settings (some base_directory) =
    make_infos base_settings base_directory size 0 (base_port_of base_settings) []
    >>= make_group fs base_directory

-- `make_ensemble`.
unfoldable pub make_ensemble : Files → ℕ → Configuration → Result ServerGroup
unfolding make_ensemble_in
make_ensemble fs size base_settings =
    make_ensemble_in fs size base_settings base_settings.data_directory.value

-- Starting a server that does not run: the constructor of `server` tests its settings.
started : Info → Result (Unit {0}) → Info × Result (Unit {0})
started srvr (err e) = (srvr, err e)
started srvr (ok u) = (record srvr { instance_runs = true }, ok tt)

start_server : Info → Info × Result (Unit {0})
unfolding started validate_settings
start_server srvr =
    let fresh : Info × Result (Unit {0}) = started srvr (validate_settings srvr.settings) in
    if srvr.instance_runs then (srvr, ok tt) else fresh

start_rest :
    ℕ
    → Info × Result (Unit {0})
    → Servers
    → Servers × Result (Unit {0})
    → Servers × Result (Unit {0})
start_rest id (srvr, err e) rest later = ((id, srvr) ∷ rest, err e)
start_rest id (srvr, ok u) rest (rest', result) = ((id, srvr) ∷ rest', result)

-- `start_all_servers`: the servers after it, and how it ended.
unfoldable pub start_all_servers : Servers → Servers × Result (Unit {0})
unfolding start_server start_rest
start_all_servers [] = ([], ok tt)
start_all_servers ((id, srvr) ∷ rest) =
    start_rest id (start_server srvr) rest (start_all_servers rest)
