-- ===== src/Examples/Connections.antt =====
-- Connection strings of src/zk/connection.cpp.
use zookeeper_cpp.Base.{
  pos, true, false, [], ◌∷◌, some, ◌≡◌, ◌↔◌, refl, codes, join, IsAll-intro, except,
}
use zookeeper_cpp.Error.Result.{ok}
use zookeeper_cpp.Connection.Match.{ConnMatch, regex_match, Matches}
use zookeeper_cpp.Connection.Match.Sound.{regex_match-Matches}
use zookeeper_cpp.Connection.Params.{
  Seconds, ConnectionParams, params_equal, params_equal_iff, to_string, default_params,
}
use zookeeper_cpp.Connection.Parse.{parse}
use zookeeper_cpp.Connection.Query.{is_number_byte}
use zookeeper_cpp.Connection.RoundTrip.{IsPrintable, parse-to_string}
use zookeeper_cpp.Connection.Split.{
  split_each_substr, Splits, split_each_substr-join, split_each_substr-Splits,
}

split_each_substr-join_example :
    split_each_substr (join (b',' ∷ []) (codes "a" ∷ codes "b" ∷ [])) b','
    ≡ codes "a" ∷ codes "b" ∷ []
split_each_substr-join_example =
    split_each_substr-join b',' (codes "a" ∷ codes "b" ∷ []) ((refl, tt), ((refl, tt), λ e. cc e))

split_each_substr-Splits_example :
    Splits b',' (codes "a,b,") (split_each_substr (codes "a,b,") b',')
split_each_substr-Splits_example = split_each_substr-Splits (codes "a,b,") b','

abbrev a_match : ConnMatch
a_match = record {
  schema = codes "zk";
  hostaddr = codes "h:1";
  path = codes "/p";
  querystring = [];
}

regex_match-Matches_example :
    (regex_match (codes "zk://h:1/p") ≡ some a_match) ↔ Matches (codes "zk://h:1/p") a_match
regex_match-Matches_example = regex_match-Matches (codes "zk://h:1/p") a_match

params_equal_iff_example :
    (params_equal default_params default_params ≡ true) ↔ (default_params ≡ default_params)
params_equal_iff_example = params_equal_iff default_params default_params

-- Seconds that are read and printed for the one timeout below.
abbrev pub some_seconds : Seconds
some_seconds = record { stod_millis = λ s. ok (pos 2000); print_seconds = λ t. codes "2" }

abbrev some_params : ConnectionParams
some_params = record {
  connection_schema = codes "zk";
  hosts = codes "h:1" ∷ codes "i:2" ∷ [];
  chroot = codes "/p";
  randomize_hosts = false;
  read_only = true;
  timeout = pos 2000;
}

some_params-IsPrintable : IsPrintable some_seconds some_params
some_params-IsPrintable = record {
  schema_class = IsAll-intro (except b':') (codes "zk") refl;
  schema_ne_nil = λ e. cc e;
  hosts_ne_nil = λ e. cc e;
  hosts_pieces = (
    IsAll-intro (except b',') (codes "h:1") refl,
    (IsAll-intro (except b',') (codes "i:2") refl, λ e. cc e),
  );
  hosts_class = (
    IsAll-intro (except b'/') (codes "h:1") refl,
    (IsAll-intro (except b'/') (codes "i:2") refl, tt),
  );
  path = codes "p";
  chroot_is = refl;
  path_class = IsAll-intro (except b'?') (codes "p") refl;
  timeout_reads_back = record {
    first = b'2';
    others = [];
    printed = refl;
    not_period = refl;
    bytes_class = IsAll-intro is_number_byte (codes "2") refl;
    reads_back = refl;
  };
}

parse-to_string_example : parse some_seconds (to_string some_seconds some_params) ≡ ok some_params
parse-to_string_example = parse-to_string some_seconds some_params some_params-IsPrintable
