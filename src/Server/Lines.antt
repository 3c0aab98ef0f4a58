-- ===== src/Server/Lines.antt =====
-- The lines of a configuration file (src/zk/server/configuration.cpp): `std::getline`, the lines that
-- `save` writes, the regular expression for one line, and the words of a white list.
use zookeeper_cpp.Base.{
  ℕ, zero, suc, Bool, not, ◌&&◌, List, [], ◌∷◌, ◌++◌, Option, none, some, ◌≡◌, ◌≢◌, refl, ap, ◌∙◌,
  inl, inr, ◌==◌, if◌then◌else◌, Bool-cases, Bytes, length, take_while, drop_while, except, all_of,
  IsAll, Stops, All, IsAll→all_of, take_while-append, drop_while-append, is_space, arith,
}
use zookeeper_cpp.Acl.Rule.{less_text}
use zookeeper_cpp.Server.Ordered.{set_insert}

-- The rest of a line in front of the next byte, with what `getline` makes of the other lines.
more_lines : ℕ → List Bytes → List Bytes
more_lines c [] = (c ∷ []) ∷ []
more_lines c (line ∷ lines) = (c ∷ line) ∷ lines

-- The loop of `getline` over a stream. The end of the stream ends a last line that is not empty.
unfoldable pub get_lines : Bytes → List Bytes
unfolding more_lines
get_lines [] = []
get_lines (c ∷ cs) = if c == b'\n' then [] ∷ get_lines cs else more_lines c (get_lines cs)

-- The loop of `save`.
unfoldable pub save_lines : List Bytes → Bytes
save_lines [] = []
save_lines (line ∷ lines) = line ++ b'\n' ∷ save_lines lines

get_lines-line :
    (line rest : Bytes)
    → IsAll (except b'\n') line
    → get_lines (line ++ b'\n' ∷ rest) ≡ line ∷ get_lines rest
unfolding get_lines
get_lines-line [] rest h = refl
get_lines-line (c ∷ cs) rest h = elim (Bool-cases (c == b'\n')) [
  | inl newline ↦ cc (newline, h.0)
  | inr other ↦ rw (other, get_lines-line cs rest h.1) refl
]

-- What `save` writes is read back as the same lines, if no line has a line feed in it.
pub get_lines-save_lines :
    (lines : List Bytes) → All (IsAll (except b'\n')) lines → get_lines (save_lines lines) ≡ lines
unfolding get_lines save_lines
get_lines-save_lines [] h = refl
get_lines-save_lines (line ∷ lines) h =
    get_lines-line line (save_lines lines) h.0 ∙ ap (◌∷◌ line) (get_lines-save_lines lines h.1)

-- The two classes of the expression, `[^ #]` and `[ #]`.
abbrev pub is_data : ℕ → Bool
is_data c = not (c == b' ') && not (c == b'#')

abbrev pub is_trailing : ℕ → Bool
is_trailing c = not (is_data c)

match_groups : Bytes → Bytes → Bytes → Option (Bytes × Bytes)
match_groups [] contents trail = none
match_groups (n ∷ ns) [] trail = none
match_groups (n ∷ ns) (d ∷ ds) trail =
    if all_of is_trailing trail then some (n ∷ ns, d ∷ ds) else none

match_equals : Bytes → Bytes → Option (Bytes × Bytes)
unfolding match_groups
match_equals name [] = none
match_equals name (e ∷ rest) = match_groups name (take_while is_data rest) (drop_while is_data rest)

-- `regex_match` with `^([^=]+)=([^ #]+)[ #]*$`: the two groups. The classes on both sides of a border
-- exclude each other, so there is one way to match.
unfoldable pub match_line : Bytes → Option (Bytes × Bytes)
unfolding match_equals
match_line line = match_equals (take_while (except b'=') line) (drop_while (except b'=') line)

trailing-Stops : (xs : Bytes) → IsAll is_trailing xs → Stops is_data xs
trailing-Stops [] h = tt
trailing-Stops (x ∷ xs) h = ground (arith, h.0)

match_groups-trailing :
    (name contents trail : Bytes)
    → IsAll is_trailing trail
    → match_groups name contents trail ≡ match_groups name contents []
unfolding match_groups
match_groups-trailing [] contents trail ht = refl
match_groups-trailing (n ∷ ns) [] trail ht = refl
match_groups-trailing (n ∷ ns) (d ∷ ds) trail ht = rw (IsAll→all_of is_trailing trail ht) refl

match_equals-data :
    (name contents trail : Bytes)
    → IsAll is_data contents
    → IsAll is_trailing trail
    → match_equals name (b'=' ∷ (contents ++ trail)) ≡ match_groups name contents []
unfolding match_equals
match_equals-data name contents trail hd ht =
    rw
      (
        take_while-append is_data contents trail hd (trailing-Stops trail ht),
        drop_while-append is_data contents trail hd (trailing-Stops trail ht),
      )
      (match_groups-trailing name contents trail ht)

-- A name and data of the right bytes, and then spaces and `#`, are matched as these.
pub match_line-setting :
    (name contents trail : Bytes)
    → name ≢ []
    → contents ≢ []
    → IsAll (except b'=') name
    → IsAll is_data contents
    → IsAll is_trailing trail
    → match_line (name ++ b'=' ∷ (contents ++ trail)) ≡ some (name, contents)
unfolding match_line match_groups
match_line-setting [] contents trail ne _ _ _ _ = absurd (ne refl)
match_line-setting (n ∷ ns) [] trail _ ne _ _ _ = absurd (ne refl)
match_line-setting (n ∷ ns) (d ∷ ds) trail _ _ hn hd ht =
    rw
      (
        take_while-append (except b'=') (n ∷ ns) (b'=' ∷ (d ∷ ds ++ trail)) hn refl,
        drop_while-append (except b'=') (n ∷ ns) (b'=' ∷ (d ∷ ds ++ trail)) hn refl,
      )
      (match_equals-data (n ∷ ns) (d ∷ ds) trail hd ht)

-- The loops that take the blanks off both ends.
trim_back : Bytes → Bytes
trim_back [] = []
trim_back (c ∷ cs) = elim (trim_back cs) [
  | [] ↦ if is_space c then [] else c ∷ []
  | d ∷ ds ↦ c ∷ d ∷ ds
]

whitelist_fuel : ℕ → List Bytes → Bytes → List Bytes
unfolding trim_back
whitelist_fuel zero out source = out
whitelist_fuel (suc f) out [] = out
whitelist_fuel (suc f) out (c ∷ cs) =
    if c == b','
    then whitelist_fuel f out cs
    else whitelist_fuel f
        (set_insert less_text (trim_back (drop_while is_space (take_while (except b',') (c ∷ cs))))
          out)
        (drop_while (except b',') (c ∷ cs))

-- `parse_whitelist`. Each round takes a byte at least, so as many rounds as bytes do.
unfoldable pub parse_whitelist : Bytes → List Bytes
unfolding whitelist_fuel
parse_whitelist source = whitelist_fuel (length source) [] source
