-- ===== src/Connection/Match/Complete.antt =====
-- The matcher finds every text of the language.
use zookeeper_cpp.Base.{
  ◌∙◌, [], ◌∷◌, ◌++◌, ◌≡◌, ◌≢◌, refl, some, Bytes, except, IsAll, Stops, take_while-append,
  drop_while-append, IsAll→all_of,
}
use zookeeper_cpp.Connection.Match.{
  ConnMatch, is_dot, match_query, match_path, match_host, match_separator, regex_match, TailMatches,
  absent, path_only, path_and_query, Matches,
}

match_query_complete :
    (schema host p q : Bytes)
    → IsAll is_dot q
    → match_query schema host p (b'?' ∷ q)
      ≡ some (record { schema = schema; hostaddr = host; path = p; querystring = b'?' ∷ q })
unfolding match_query
match_query_complete schema host p q h = rw (IsAll→all_of is_dot q h)

match_path_slash :
    (schema host p rest : Bytes)
    → IsAll (except b'?') p
    → Stops (except b'?') rest
    → match_path schema host (b'/' ∷ (p ++ rest)) ≡ match_query schema host (b'/' ∷ p) rest
unfolding match_path
match_path_slash schema host p rest h s =
    rw (take_while-append (except b'?') p rest h s, drop_while-append (except b'?') p rest h s)

match_path_complete :
    (schema host : Bytes) {p q : Bytes}
    → TailMatches p q
    → match_path schema host (p ++ q)
      ≡ some (record { schema = schema; hostaddr = host; path = p; querystring = q })
match_path_complete schema host absent = unfold match_path in refl
match_path_complete schema host (path_only {p} h) =
    match_path_slash schema host p [] h tt ∙ unfold match_query in refl
match_path_complete schema host (path_and_query {p} {q} h d) =
    match_path_slash schema host p (b'?' ∷ q) h refl
    ∙ match_query_complete schema host (b'/' ∷ p) q d

match_host_complete :
    (schema : Bytes) (host rest : Bytes)
    → IsAll (except b'/') host
    → host ≢ []
    → Stops (except b'/') rest
    → match_host schema (host ++ rest) ≡ match_path schema host rest
unfolding match_host
match_host_complete schema [] rest h ne s = absurd (ne refl)
match_host_complete schema (c ∷ cs) rest h ne s = rw (
  h.0,
  take_while-append (except b'/') cs rest h.1 s,
  drop_while-append (except b'/') cs rest h.1 s,
)

TailMatches-Stops : {p q : Bytes} → TailMatches p q → Stops (except b'/') (p ++ q)
TailMatches-Stops absent = tt
TailMatches-Stops (path_only h) = refl
TailMatches-Stops (path_and_query h d) = refl

match_separator_lem :
    (schema rest : Bytes)
    → schema ≢ []
    → match_separator schema (b':' ∷ b'/' ∷ b'/' ∷ rest) ≡ match_host schema rest
unfolding match_separator
match_separator_lem [] rest ne = absurd (ne refl)
match_separator_lem (s ∷ ss) rest ne = refl

pub regex_match_complete : (s : Bytes) (m : ConnMatch) → Matches s m → regex_match s ≡ some m
unfolding regex_match
regex_match_complete s m h =
    let tail : Bytes = b':' ∷ b'/' ∷ b'/' ∷ (m.hostaddr ++ (m.path ++ m.querystring)) in
    rw
      (
        h.parts,
        take_while-append (except b':') m.schema tail h.schema_class refl,
        drop_while-append (except b':') m.schema tail h.schema_class refl,
      )
      (match_separator_lem m.schema (m.hostaddr ++ (m.path ++ m.querystring)) h.schema_ne_nil
        ∙ match_host_complete m.schema m.hostaddr (m.path ++ m.querystring) h.host_class
            h.host_ne_nil (TailMatches-Stops h.tail_matches)
        ∙ match_path_complete m.schema m.hostaddr h.tail_matches)
