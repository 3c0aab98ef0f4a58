-- ===== src/Connection/Match.antt =====
-- The regular expression of `connection_params::parse` (src/zk/connection.cpp),
--   ([^:]+)://([^/]+)((/[^\?]*)(\?.*)?)?
-- as ECMAScript matches it against a whole text: a matcher by clauses, and the language it decides.
pub mod Complete
pub mod Sound
use zookeeper_cpp.Base.{
  ℕ, some_inj, none-some, Bool-cases, Bool, append-nil, ap, subst, sym, ◌∙◌, true, false, not, ◌||◌,
  [], ◌∷◌, ◌++◌, ◌≡◌, ◌≢◌, ◌⊎◌, ◌↔◌, inl, inr, refl, Option, none, some, arith, ◌==◌, if◌then◌else◌,
  Bytes, take_while, drop_while, except, all_of, IsAll, Stops, take_while-append, drop_while-append,
  take_while-eq_self, drop_while-eq-nil, take_while-IsAll, drop_while-Stops, take-append-drop_while,
  IsAll-intro, IsAll→all_of,
}

-- Groups 1, 2, 4 and 5. A group that took no part in the match is the empty text.
pub record ConnMatch : Type 0 where
  pub schema : Bytes
  pub hostaddr : Bytes
  pub path : Bytes
  pub querystring : Bytes

-- `.` in ECMAScript: no line terminator.
abbrev pub is_dot : ℕ → Bool
is_dot c = not (c == b'\n' || c == b'\r')

-- `(\?.*)?` up to the end, for a text that is empty or begins with '?'.
match_query : Bytes → Bytes → Bytes → Bytes → Option ConnMatch
match_query schema host path [] =
    some (record { schema = schema; hostaddr = host; path = path; querystring = [] })
match_query schema host path (c ∷ q) =
    if all_of is_dot q
    then some (record { schema = schema; hostaddr = host; path = path; querystring = c ∷ q })
    else none

-- `((/[^\?]*)(\?.*)?)?`, for a text that is empty or begins with '/'.
match_path : Bytes → Bytes → Bytes → Option ConnMatch
unfolding match_query
match_path schema host [] =
    some (record { schema = schema; hostaddr = host; path = []; querystring = [] })
match_path schema host (c ∷ cs) =
    match_query schema host (take_while (except b'?') (c ∷ cs)) (drop_while (except b'?') (c ∷ cs))

-- `([^/]+)` and what follows.
match_host : Bytes → Bytes → Option ConnMatch
unfolding match_path
match_host schema [] = none
match_host schema (c ∷ cs) =
    if except b'/' c
    then match_path schema (take_while (except b'/') (c ∷ cs)) (drop_while (except b'/') (c ∷ cs))
    else none

-- `://` and what follows.
match_separator : Bytes → Bytes → Option ConnMatch
unfolding match_host
match_separator [] rest = none
match_separator (s ∷ ss) (a ∷ b ∷ c ∷ rest) =
    if a == b':'
    then if b == b'/' then if c == b'/' then match_host (s ∷ ss) rest else none else none
    else none
match_separator (s ∷ ss) _ = none

unfoldable pub regex_match : Bytes → Option ConnMatch
unfolding match_separator
regex_match s = match_separator (take_while (except b':') s) (drop_while (except b':') s)

-- The path and query groups: both absent, the path alone, or both.
pub data TailMatches : Bytes → Bytes → Type 0 where
  absent : TailMatches [] []
  path_only : {p : Bytes} → IsAll (except b'?') p → TailMatches (b'/' ∷ p) []
  path_and_query :
      {p q : Bytes} → IsAll (except b'?') p → IsAll is_dot q → TailMatches (b'/' ∷ p) (b'?' ∷ q)

-- The language of the expression, and the groups of a match.
pub record Matches (s : Bytes) (m : ConnMatch) : Type 0 where
  pub parts : s ≡ m.schema ++ b':' ∷ b'/' ∷ b'/' ∷ (m.hostaddr ++ (m.path ++ m.querystring))
  pub schema_class : IsAll (except b':') m.schema
  pub schema_ne_nil : m.schema ≢ []
  pub host_class : IsAll (except b'/') m.hostaddr
  pub host_ne_nil : m.hostaddr ≢ []
  pub tail_matches : TailMatches m.path m.querystring
