-- ===== src/Zk/Client.antt =====
-- `client` (src/zk/client.cpp): connecting, and the calls that it passes on to its connection.
--
-- A client is its connection, so there is nothing to say of one but that it is there.
pub mod Connects
use zookeeper_cpp.Base.{
  ℕ, ℤ, Bool, true, false, List, [], ◌∷◌, ◌++◌, Option, none, some, Bytes, codes, ◌==ℤ◌, get_elem?,
  if◌then◌else◌,
}
use zookeeper_cpp.Acl.Rule.{Acl, open_unsafe}
use zookeeper_cpp.Connection.Params.{ConnectionParams, Seconds}
use zookeeper_cpp.Connection.Parse.{parse}
use zookeeper_cpp.Error.Exn.{Exn, runtime_error}
use zookeeper_cpp.Error.Result.{Result, ok, err, ◌>>=◌}
use zookeeper_cpp.Multi.Op.{Op}
use zookeeper_cpp.Types.CreateMode.{CreateMode}
use zookeeper_cpp.Types.State
use zookeeper_cpp.Types.State.{State}
use zookeeper_cpp.Types.Version.{Version}
use zookeeper_cpp.Zk.Open.{make_connection_zk}
use zookeeper_cpp.Zk.Promise.{Promise, unset, value, exception}
use zookeeper_cpp.Zk.Request
use zookeeper_cpp.Zk.Request.{Request}
use zookeeper_cpp.Zk.StateWatch.{StateWatches, watch_state}
use zookeeper_cpp.Zk.Watch.{WatchKind, data_watcher, child_watcher, exists_watcher}

pub data Client : Type 0 where
  client : Client

-- The body of the task that waits for the state: what its future has for what the future of the state
-- has.
unfoldable pub connect_task : Promise State → Promise Client
connect_task unset = unset
connect_task (exception e) = exception e
connect_task (value s) =
    if s ==ℤ State.connected
    then value client
    else exception (runtime_error (codes "Unexpected state: " ++ State.to_string s))

-- The future that `connect` returns: one with a result, or that of a task which waits for the state
-- promise at a place.
pub data Connecting : Type 0 where
  resolved : Promise Client → Connecting
  awaits : ℕ → Connecting

-- The test of the state, after `watch_state`.
abbrev pub check_state : State → ℕ → Connecting
check_state at_check i = if at_check ==ℤ State.connected then resolved (value client) else awaits i

-- `connect` of parameters, for how the constructor of the connection ends and for the state of the
-- library at the test. An exception becomes the result of the future.
unfoldable pub connect {ℓ} :
    {A : Type ℓ} → Result A → State → StateWatches → StateWatches × Connecting
unfolding watch_state
connect (err e) at_check s = (s, resolved (exception e))
connect (ok conn) at_check s = let (watched, i) = watch_state s in (watched, check_state at_check i)

-- `connect` of a connection string: what the parsing throws, it throws.
unfoldable pub connect_to :
    Seconds → Bytes → Option ℕ → State → StateWatches → Result (StateWatches × Connecting)
unfolding connect make_connection_zk
connect_to sec conn_string handle at_check s = parse sec conn_string >>= λ params.
    ok (connect (make_connection_zk sec params handle) at_check s)

-- What the state watches give the future.
unfoldable pub awaited : Option (Promise State) → Promise Client
unfolding connect_task
awaited none = unset
awaited (some p) = connect_task p

unfoldable pub future_of : Connecting → StateWatches → Promise Client
unfolding awaited
future_of (resolved p) s = p
future_of (awaits i) s = awaited (get_elem? s.promises i)

-- The methods of a client, with their arguments.
pub data ClientCall : Type 0 where
  get watch get_children watch_children exists watch_exists get_acl : Bytes → ClientCall
  create : Bytes → Bytes → Acl → CreateMode → ClientCall
  create_open : Bytes → Bytes → CreateMode → ClientCall
  set_data : Bytes → Bytes → Version → ClientCall
  set_acl : Bytes → Acl → Version → ClientCall
  erase : Bytes → Version → ClientCall
  load_fence close : ClientCall
  commit : List Op → ClientCall

-- The methods of a connection.
pub data ConnectionCall : Type 0 where
  operation : Request → ConnectionCall
  watches : WatchKind → Bytes → ConnectionCall
  commits : List Op → ConnectionCall
  closes : ConnectionCall

-- The call that each method passes on.
unfoldable pub forward : ClientCall → ConnectionCall
forward (get path) = operation (Request.get path)
forward (watch path) = watches data_watcher path
forward (get_children path) = operation (Request.get_children path)
forward (watch_children path) = watches child_watcher path
forward (exists path) = operation (Request.exists path)
forward (watch_exists path) = watches exists_watcher path
forward (get_acl path) = operation (Request.get_acl path)
forward (create path contents rules mode) = operation (Request.create path contents rules mode)
forward (create_open path contents mode) = operation (Request.create path contents open_unsafe mode)
forward (set_data path contents check) = operation (Request.set_data path contents check)
forward (set_acl path rules check) = operation (Request.set_acl path rules check)
forward (erase path check) = operation (Request.erase path check)
forward load_fence = operation Request.load_fence
forward close = closes
forward (commit txn) = commits txn
