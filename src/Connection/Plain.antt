-- ===== src/Connection/Plain.antt =====
-- Parsing a connection string with no query.
use zookeeper_cpp.Base.{List, [], ◌++◌, ◌≡◌, ◌≢◌, refl, Bytes, codes, join, except, IsAll, All}
use zookeeper_cpp.Error.Result.{ok}
use zookeeper_cpp.Connection.Match.{path_only, Matches}
use zookeeper_cpp.Connection.Match.Complete.{regex_match_complete}
use zookeeper_cpp.Connection.Split.{ArePieces, split_each_substr-join}
use zookeeper_cpp.Connection.Params.{Seconds, default_params}
use zookeeper_cpp.Connection.Parse.{extract_host_list, extract_advanced_options, parse}
use zookeeper_cpp.Connection.RoundTrip.{join-class, join-ne-nil}

module _ (sec : Seconds) (hosts : List Bytes) (ne_nil : hosts ≢ []) (pieces : ArePieces b',' hosts)
    (no_slash : All (IsAll (except b'/')) hosts) where
  plain-Matches : Matches (codes "zk://" ++ (join (codes ",") hosts ++ codes "/")) (record {
    schema = codes "zk";
    hostaddr = join (codes ",") hosts;
    path = codes "/";
    querystring = [];
  })
  plain-Matches = record {
    parts = refl;
    schema_class = (refl, (refl, tt));
    schema_ne_nil = λ e. cc e;
    host_class = join-class hosts no_slash;
    host_ne_nil = join-ne-nil hosts ne_nil pieces;
    tail_matches = path_only tt;
  }

  -- Hosts with the default path and options.
  pub parse-plain :
      parse sec (codes "zk://" ++ (join (codes ",") hosts ++ codes "/"))
      ≡ ok (record default_params { hosts = hosts })
  unfolding parse extract_host_list extract_advanced_options
  parse-plain =
      rw (regex_match_complete _ _ plain-Matches, parse, split_each_substr-join b',' hosts pieces)
        refl
