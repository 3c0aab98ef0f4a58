-- ===== src/Connection/Parse.antt =====
-- `connection_params::parse` and its helpers (src/zk/connection.cpp).
use zookeeper_cpp.Base.{
  ℤ, Bool, true, false, ◌||◌, List, [], ◌∷◌, ◌++◌, Option, none, some, ◌==◌, if◌then◌else◌, Bytes,
  codes, equal, take_while, drop_while, except,
}
use zookeeper_cpp.Error.Exn.{Exn, invalid_argument}
use zookeeper_cpp.Error.Result.{Result, ok, err, ◌>>=◌}
use zookeeper_cpp.Connection.Split.{split_each_substr}
use zookeeper_cpp.Connection.Match.{ConnMatch, regex_match}
use zookeeper_cpp.Connection.Params.{Seconds, ConnectionParams, default_params}

-- `extract_host_list`.
unfoldable pub extract_host_list : Bytes → List Bytes
extract_host_list src = split_each_substr src b','

blank_value : Bytes → Exn
blank_value key = invalid_argument (codes "Key " ++ key ++ codes " has blank value")

-- `extract_bool`.
unfoldable pub extract_bool : Bytes → Bytes → Result Bool
unfolding blank_value
extract_bool key [] = err (blank_value key)
extract_bool key (c ∷ cs) =
    if c == b'1' || c == b't' || c == b'T'
    then ok true
    else if c == b'0' || c == b'f' || c == b'F'
    then ok false
    else err (
        invalid_argument (
          codes "Invalid value for "
          ++ key
          ++ codes " \""
          ++ (c ∷ cs)
          ++ codes "\" -- expected a boolean"))

-- `extract_millis`.
unfoldable pub extract_millis : Seconds → Bytes → Bytes → Result ℤ
unfolding blank_value
extract_millis sec key [] = err (blank_value key)
extract_millis sec key (c ∷ cs) =
    if c == b'P'
    then err (invalid_argument (codes "ISO 8601 duration is not supported (yet)."))
    else sec.stod_millis (c ∷ cs)

-- What the action of `extract_advanced_options` writes to: the parameters and `invalid_keys_msg`.
abbrev pub Options : Type 0
Options = ConnectionParams × Bytes

-- `invalid_key`.
unfoldable pub invalid_key : Bytes → Bytes → Bytes
invalid_key key [] = codes "Invalid key in querystring: " ++ key
invalid_key key msg = msg ++ codes ", " ++ key

-- The action on one part of the query string, behind the search for '='.
unfoldable pub query_part : Seconds → Bytes → Bytes → Options → Result Options
unfolding invalid_key extract_bool extract_millis
query_part sec key [] (out, msg) = err (
    invalid_argument (
      codes "Invalid connection string -- query string must be specified as "
      ++ codes "\"key1=value1&key2=value2...\""))
query_part sec key (eq ∷ val) (out, msg) =
    if equal key (codes "randomize_hosts")
    then (do b ← extract_bool key val; ok (record out { randomize_hosts = b }, msg))
    else if equal key (codes "read_only")
    then (do b ← extract_bool key val; ok (record out { read_only = b }, msg))
    else if equal key (codes "timeout")
    then (do t ← extract_millis sec key val; ok (record out { timeout = t }, msg))
    else ok (out, invalid_key key msg)

unfoldable pub query_action : Seconds → Options → Bytes → Result Options
unfolding query_part
query_action sec o qp_part =
    query_part sec (take_while (except b'=') qp_part) (drop_while (except b'=') qp_part) o

-- The calls of the action, in order, up to the first that throws.
unfoldable pub for_each : Seconds → Options → List Bytes → Result Options
unfolding query_action
for_each sec o [] = ok o
for_each sec o (x ∷ xs) = do o' ← query_action sec o x; for_each sec o' xs

check_keys : Options → Result ConnectionParams
check_keys (out, []) = ok out
check_keys (out, c ∷ msg) = err (invalid_argument (c ∷ msg))

-- `extract_advanced_options`, on the query string with its '?'.
unfoldable pub extract_advanced_options :
    Seconds → Bytes → ConnectionParams → Result ConnectionParams
unfolding for_each check_keys
extract_advanced_options sec [] out = ok out
extract_advanced_options sec (c ∷ []) out = ok out
extract_advanced_options sec (c ∷ d ∷ src) out = do
  o ← for_each sec (out, []) (split_each_substr (d ∷ src) b'&')
  check_keys o

or_root : Bytes → Bytes
or_root [] = codes "/"
or_root path = path

params_of_match : Seconds → Bytes → Option ConnMatch → Result ConnectionParams
unfolding or_root
params_of_match sec conn_string none = err (
    invalid_argument (
      codes "Invalid connection string ("
      ++ conn_string
      ++ codes " -- format is \"schema://[auth@]${host_addrs}/[path][?options]\""))
params_of_match sec conn_string (some m) =
    extract_advanced_options sec m.querystring (record default_params {
      connection_schema = m.schema;
      hosts = extract_host_list m.hostaddr;
      chroot = or_root m.path;
    })

-- `connection_params::parse`.
unfoldable pub parse : Seconds → Bytes → Result ConnectionParams
unfolding params_of_match
parse sec conn_string = params_of_match sec conn_string (regex_match conn_string)
