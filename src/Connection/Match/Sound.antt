-- ===== src/Connection/Match/Sound.antt =====
-- What the matcher finds is of the language.
use zookeeper_cpp.Base.{
  ℕ, some_inj, none-some, Bool-cases, Bool, ap, subst, sym, ◌∙◌, false, [], ◌∷◌, ◌++◌, ◌≡◌, ◌≢◌,
  ◌↔◌, inl, inr, refl, some, arith, Bytes, take_while, drop_while, except, all_of, IsAll, Stops,
  take_while-IsAll, drop_while-Stops, take-append-drop_while, IsAll-intro,
}
use zookeeper_cpp.Connection.Match.{
  ConnMatch, is_dot, match_query, match_path, match_host, match_separator, regex_match, TailMatches,
  absent, path_only, path_and_query, Matches,
}
use zookeeper_cpp.Connection.Match.Complete.{regex_match_complete}

-- What a match of the rest of the text, behind the host, says.
abbrev TailOf : Bytes → Bytes → Bytes → ConnMatch → Type 0
TailOf schema host r m =
    (m.schema ≡ schema)
    × (m.hostaddr ≡ host)
    × (m.path ++ m.querystring ≡ r)
    × TailMatches m.path m.querystring

except-eq : (d c : ℕ) → except d c ≡ false → c ≡ d
except-eq d c h = ground arith

match_query_sound :
    (schema host p r : Bytes) (m : ConnMatch)
    → IsAll (except b'?') p
    → Stops (except b'?') r
    → match_query schema host (b'/' ∷ p) r ≡ some m
    → TailOf schema host (b'/' ∷ (p ++ r)) m
unfolding match_query
match_query_sound schema host p [] m h s e =
    subst (TailOf schema host (b'/' ∷ (p ++ []))) (some_inj e) (refl, refl, refl, path_only h)
match_query_sound schema host p (c ∷ q) m h s e = elim (Bool-cases (all_of is_dot q)) [
  | inl dots ↦
      subst (TailOf schema host (b'/' ∷ (p ++ c ∷ q))) (some_inj (rw dots at e))
        (refl, refl, refl, rw (except-eq b'?' c s) (path_and_query h (IsAll-intro is_dot q dots)))
  | inr bad ↦ absurd (none-some (rw bad at e))
]

match_path_sound :
    (schema host r : Bytes) (m : ConnMatch)
    → Stops (except b'/') r
    → match_path schema host r ≡ some m
    → TailOf schema host r m
unfolding match_path
match_path_sound schema host [] m s e =
    subst (TailOf schema host []) (some_inj e) (refl, refl, refl, absent)
match_path_sound schema host (c ∷ cs) m s e =
    let p : ℕ → Bool = except b'?' in
    let slash : c ≡ b'/' = except-eq b'/' c s in
    let t : TailOf schema host (b'/' ∷ (take_while p cs ++ drop_while p cs)) m =
      match_query_sound schema host (take_while p cs) (drop_while p cs) m (take_while-IsAll p cs)
        (drop_while-Stops p cs) (rw slash at e) in
    (t.0, t.1, t.2 ∙ rw (take-append-drop_while p cs, slash), t.3)

match_host_sound :
    (schema r : Bytes) (m : ConnMatch)
    → match_host schema r ≡ some m
    → (m.schema ≡ schema)
      × (m.hostaddr ++ (m.path ++ m.querystring) ≡ r)
      × IsAll (except b'/') m.hostaddr
      × (m.hostaddr ≢ [])
      × TailMatches m.path m.querystring
unfolding match_host
match_host_sound schema [] m e = absurd (none-some e)
match_host_sound schema (c ∷ cs) m e = elim (Bool-cases (except b'/' c)) [
  | inl h ↦
      let p : ℕ → Bool = except b'/' in
      let t : TailOf schema (c ∷ take_while p cs) (drop_while p cs) m =
        match_path_sound schema (c ∷ take_while p cs) (drop_while p cs) m (drop_while-Stops p cs)
          (rw h at e) in
      (
        t.0,
        rw (t.1, t.2) (ap (◌∷◌ c) (take-append-drop_while p cs)),
        rw t.1 (h, take_while-IsAll p cs),
        (λ n. cc (t.1)),
        t.3,
      )
  | inr h ↦ absurd (none-some (rw h at e))
]

match_separator_sound :
    (schema r : Bytes) (m : ConnMatch)
    → match_separator schema r ≡ some m
    → (schema ≢ [])
      × (rest : Bytes) × (r ≡ b':' ∷ b'/' ∷ b'/' ∷ rest)
      × (match_host schema rest ≡ some m)
unfolding match_separator
match_separator_sound [] r m e = absurd (none-some e)
match_separator_sound (s ∷ ss) (a ∷ b ∷ c ∷ rest) m e =
    (λ n. cc n, rest, ground arith, ground arith)
match_separator_sound (s ∷ ss) [] m e = absurd (none-some e)
match_separator_sound (s ∷ ss) (a ∷ []) m e = absurd (none-some e)
match_separator_sound (s ∷ ss) (a ∷ b ∷ []) m e = absurd (none-some e)

pub regex_match_sound : (s : Bytes) (m : ConnMatch) → regex_match s ≡ some m → Matches s m
unfolding regex_match
regex_match_sound s m e =
    let p : ℕ → Bool = except b':' in
    let (ne, rest, split, host) = match_separator_sound (take_while p s) (drop_while p s) m e in
    let t = match_host_sound (take_while p s) rest m host in
    record {
      parts = sym (take-append-drop_while p s) ∙ rw (split, t.0, t.1);
      schema_class = rw t.0 (take_while-IsAll p s);
      schema_ne_nil = rw t.0 ne;
      host_class = t.2;
      host_ne_nil = t.3;
      tail_matches = t.4;
    }

-- The matcher finds groups for a text exactly when the text, cut into those groups, belongs to the
-- regular expression of `connection_params::parse`.
pub regex_match-Matches : (s : Bytes) (m : ConnMatch) → (regex_match s ≡ some m) ↔ Matches s m
regex_match-Matches s m = (regex_match_sound s m, regex_match_complete s m)
