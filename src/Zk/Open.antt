-- ===== src/Zk/Open.antt =====
-- The constructor of `connection_zk` (src/zk/connection_zk.cpp) and `connection::connect`
-- (src/zk/connection.cpp). The handle that the C library returns is an argument, `none` for a null one.
use zookeeper_cpp.Base.{ℕ, ℤ, [], ◌++◌, Option, Bytes, codes, equal, join, to_word, if◌then◌else◌}
use zookeeper_cpp.Connection.Params
use zookeeper_cpp.Connection.Params.{ConnectionParams, Seconds}
use zookeeper_cpp.Connection.Parse.{parse}
use zookeeper_cpp.Error.Exn.{invalid_argument}
use zookeeper_cpp.Error.Result.{Result, ok, err, ◌>>=◌}
use zookeeper_cpp.Zk.Adaptors.{to_int}
use zookeeper_cpp.Zk.Session.{Conn}

-- The arguments of `zookeeper_init` but for the callback, its context, the client id and the flags.
pub record InitCall : Type 0 where
  pub hosts : Bytes
  pub recv_timeout : ℤ

unfoldable pub init_call : ConnectionParams → InitCall
init_call params = record {
  hosts = join (codes ",") params.hosts;
  recv_timeout = to_int (to_word 32 params.timeout);
}

-- The constructor: the call that it makes, and the connection. A null handle is no error.
unfoldable pub make_connection_zk : Seconds → ConnectionParams → Option ℕ → Result (InitCall × Conn)
unfolding init_call
make_connection_zk sec params handle =
    if equal params.connection_schema (codes "zk")
    then ok (init_call params, record { handle = handle; cells = []; past = []; watches = [] })
    else err (
        invalid_argument
          (codes "Invalid connection string \"" ++ Params.to_string sec params ++ codes "\""))

-- `connection::connect` of a connection string.
unfoldable pub connect_string : Seconds → Bytes → Option ℕ → Result (InitCall × Conn)
unfolding make_connection_zk
connect_string sec conn_string handle =
    parse sec conn_string >>= λ params. make_connection_zk sec params handle
