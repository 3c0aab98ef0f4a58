-- ===== src/Examples/Ensembles.antt =====
-- Servers, class paths and ensembles of src/zk/server.
use zookeeper_cpp.Base.{
  ◌*◌, ◌+◌, true, List, [], ◌∷◌, ◌≡◌, refl, codes, Bytes, arith, All, length, equal, if◌then◌else◌,
  ◌≤◌, ◌^◌,
}
use zookeeper_cpp.Connection.Params.{default_params}
use zookeeper_cpp.Connection.Parse.{parse}
use zookeeper_cpp.Error.Exn.{enoent}
use zookeeper_cpp.Error.Result.{ok}
use zookeeper_cpp.Examples.Connections.{some_seconds}
use zookeeper_cpp.Process.System.{Answer, done, failed}
use zookeeper_cpp.Process.Transfer.{taken}
use zookeeper_cpp.Server.Classpath.{
  find_system_default, requirements, find_jars, find_jar, file_exists, potential, potential_size,
}
use zookeeper_cpp.Server.Classpath.Found.{AreFound, find_system_default-AreFound}
use zookeeper_cpp.Server.Configuration.{
  Configuration, make_minimal, set_data_directory, set_client_port, set_init_limit, set_sync_limit,
  set_setting, set_line, get_client_port, is_minimal, get_init_limit, get_sync_limit,
}
use zookeeper_cpp.Server.Group.{Files, ServerGroup, make_ensemble, base_port_of, start_all_servers}
use zookeeper_cpp.Server.Group.Ensemble.{IsReady}
use zookeeper_cpp.Server.Group.Hosts.{make_ensemble-parse}
use zookeeper_cpp.Server.Group.Ports.{make_ensemble-consecutive, ports_of, consecutive}
use zookeeper_cpp.Server.Group.Starts.{make_ensemble-start_all_servers, Knows, all_run}
use zookeeper_cpp.Server.Group.Written.{hosts_of}
use zookeeper_cpp.Server.Registry.{Classpath}
use zookeeper_cpp.Server.Run.{validate_settings, process_args}
use zookeeper_cpp.Server.Run.Arguments.{IsCommand, validate_settings-process_args}

abbrev good_files : Files
good_files = record { mkdir = λ path. done tt; writes = λ path. true }

abbrev base_settings : Configuration
base_settings = make_minimal (codes "data") 2181

base_settings-IsReady : IsReady good_files 3 base_settings
unfolding make_minimal set_data_directory set_client_port set_init_limit set_sync_limit set_setting
    set_line
base_settings-IsReady = record {
  works = record { makes = λ path. refl; takes = λ path. refl };
  directory = codes "data";
  directory_is = refl;
  no_servers = refl;
  size_pos = omega arith;
  size_lt = omega arith;
}

make_ensemble-parse_example :
    (g : ServerGroup) × (make_ensemble good_files 3 base_settings ≡ ok g)
    × (length g.servers ≡ 3)
    × (parse some_seconds g.conn_string ≡ ok (record default_params { hosts = hosts_of g.servers }))
make_ensemble-parse_example =
    make_ensemble-parse some_seconds good_files 3 base_settings base_settings-IsReady

base_port : base_port_of base_settings + 3 * 3 ≤ 2 ^ 16
unfolding base_port_of make_minimal set_data_directory set_client_port set_init_limit set_sync_limit
    set_setting set_line get_client_port
base_port = omega arith

make_ensemble-consecutive_example :
    (g : ServerGroup) × (make_ensemble good_files 3 base_settings ≡ ok g)
    × (ports_of g.servers ≡ consecutive (3 * 3) (base_port_of base_settings))
make_ensemble-consecutive_example =
    make_ensemble-consecutive good_files 3 base_settings base_settings-IsReady base_port

make_ensemble-start_all_servers_example :
    (g : ServerGroup) × (make_ensemble good_files 3 base_settings ≡ ok g)
    × All (Knows g.servers) g.servers
    × (start_all_servers g.servers ≡ (all_run g.servers, ok tt))
make_ensemble-start_all_servers_example =
    make_ensemble-start_all_servers good_files 3 base_settings base_settings-IsReady

a_minimal : validate_settings base_settings ≡ ok tt
unfolding validate_settings is_minimal make_minimal set_data_directory set_client_port
    set_init_limit set_sync_limit set_setting set_line get_init_limit get_sync_limit
a_minimal = refl

validate_settings-process_args_example :
    (args : List Bytes) × (process_args (codes "a.jar" ∷ []) base_settings ≡ ok args)
    × IsCommand (codes "a.jar" ∷ []) base_settings args
validate_settings-process_args_example =
    validate_settings-process_args (codes "a.jar" ∷ []) base_settings a_minimal

-- One jar stands in the second location only.
abbrev some_stat : Bytes → Answer (Unit {0})
some_stat path =
    if equal path (codes "/usr/share/java/slf4j-api.jar") then failed enoent else done tt

abbrev some_components : Classpath
some_components =
    codes "/usr/share/java/zookeeper.jar"
    ∷ codes "/usr/local/share/java/slf4j-api.jar"
    ∷ codes "/usr/share/java/slf4j-simple.jar"
    ∷ []

some_search : find_system_default some_stat ≡ ok some_components
unfolding find_system_default find_jars find_jar file_exists potential potential_size taken equal
some_search = refl

find_system_default-AreFound_example : AreFound some_stat requirements some_components
find_system_default-AreFound_example =
    find_system_default-AreFound some_stat some_components some_search
