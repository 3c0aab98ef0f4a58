-- ===== src/Connection/RoundTrip.antt =====
-- Parsing a printed connection string.
use zookeeper_cpp.Base.{
  List, [], ◌∷◌, ◌++◌, ◌≡◌, ◌≢◌, refl, ◌∙◌, Bytes, codes, join, join_rest, except, IsAll, All,
  All-append, true,
}
use zookeeper_cpp.Error.Result.{ok}
use zookeeper_cpp.Connection.Match.{TailMatches, path_only, path_and_query, Matches, is_dot}
use zookeeper_cpp.Connection.Match.Complete.{regex_match_complete}
use zookeeper_cpp.Connection.Split.{ArePieces, split_each_substr-join}
use zookeeper_cpp.Connection.Params.{
  Seconds, ConnectionParams, options_of, query_of, to_string, to_string_lem,
}
use zookeeper_cpp.Connection.Parse.{extract_host_list, parse}
use zookeeper_cpp.Connection.Query.{ReadsBack, extract_advanced_options-options, query_of-dots}

-- Parameters whose printed form is a connection string for them: a schema with no ':'; one host or
-- more, with no ',' or '/', the last of them not empty; a path that begins with '/' and has no '?';
-- and a timeout that is read back.
pub record IsPrintable (sec : Seconds) (x : ConnectionParams) : Type 0 where
  pub schema_class : IsAll (except b':') x.connection_schema
  pub schema_ne_nil : x.connection_schema ≢ []
  pub hosts_ne_nil : x.hosts ≢ []
  pub hosts_pieces : ArePieces b',' x.hosts
  pub hosts_class : All (IsAll (except b'/')) x.hosts
  pub path : Bytes
  pub chroot_is : x.chroot ≡ b'/' ∷ path
  pub path_class : IsAll (except b'?') path
  pub timeout_reads_back : ReadsBack sec x.timeout

join_rest-class :
    (xs : List Bytes)
    → All (IsAll (except b'/')) xs
    → IsAll (except b'/') (join_rest (codes ",") xs)
join_rest-class [] h = tt
join_rest-class (x ∷ xs) h = (
  refl,
  All-append (λ c. except b'/' c ≡ true) x (join_rest (codes ",") xs) h.0 (join_rest-class xs h.1),
)

pub join-class :
    (xs : List Bytes) → All (IsAll (except b'/')) xs → IsAll (except b'/') (join (codes ",") xs)
unfolding join
join-class [] h = tt
join-class (x ∷ xs) h =
    All-append (λ c. except b'/' c ≡ true) x (join_rest (codes ",") xs) h.0 (join_rest-class xs h.1)

pub join-ne-nil : (xs : List Bytes) → xs ≢ [] → ArePieces b',' xs → join (codes ",") xs ≢ []
unfolding join
join-ne-nil [] ne h e = ne refl
join-ne-nil ([] ∷ []) ne h e = h.1 refl
join-ne-nil ((c ∷ cs) ∷ []) ne h e = cc e
join-ne-nil ([] ∷ y ∷ xs) ne h e = cc e
join-ne-nil ((c ∷ cs) ∷ y ∷ xs) ne h e = cc e

query-TailMatches :
    (p : Bytes) (xs : List Bytes)
    → IsAll (except b'?') p
    → ((x : Bytes) (r : List Bytes) → xs ≡ x ∷ r → IsAll is_dot (x ++ join_rest (codes "&") r))
    → TailMatches (b'/' ∷ p) (query_of xs)
query-TailMatches p [] h d = path_only h
query-TailMatches p (x ∷ r) h d = path_and_query h (d x r refl)

module _ (sec : Seconds) (x : ConnectionParams) (h : IsPrintable sec x) where
  to_string-Matches : Matches (to_string sec x) (record {
    schema = x.connection_schema;
    hostaddr = join (codes ",") x.hosts;
    path = b'/' ∷ h.path;
    querystring = query_of (options_of sec x);
  })
  to_string-Matches = record {
    parts = to_string_lem sec x ∙ rw h.chroot_is;
    schema_class = h.schema_class;
    schema_ne_nil = h.schema_ne_nil;
    host_class = join-class x.hosts h.hosts_class;
    host_ne_nil = join-ne-nil x.hosts h.hosts_ne_nil h.hosts_pieces;
    tail_matches =
        query-TailMatches h.path (options_of sec x) h.path_class
          (query_of-dots sec x h.timeout_reads_back);
  }

  -- Parsing the text that `operator<<` prints gives the same parameters back, every field included, for
  -- printable parameters: a schema with no ':'; one host or more, with no ',' or '/', the last of them
  -- not empty; a path that begins with '/' and has no '?'; and a timeout whose printed count of seconds
  -- the floating point conversions read back.
  pub parse-to_string : parse sec (to_string sec x) ≡ ok x
  unfolding parse extract_host_list
  parse-to_string =
      rw
        (
          regex_match_complete _ _ to_string-Matches,
          parse,
          split_each_substr-join b',' x.hosts h.hosts_pieces,
          ← h.chroot_is,
        )
        (extract_advanced_options-options sec x h.timeout_reads_back)
