-- ===== src/Connection/Query.antt =====
-- The query string that `operator<<` prints is read back by `extract_advanced_options`.
use zookeeper_cpp.Base.{
  ℕ, ℤ, Bool, true, false, ◌&&◌, List, [], ◌∷◌, ◌++◌, ◌≡◌, ◌≢◌, refl, arith, ◌==◌, ◌==ℤ◌, ==ℤ_iff,
  Bool-cases, inl, inr, All, All-append, IsAll-mono, IsAll-intro, Bytes, codes, join, equal,
  join_rest, except, IsAll,
}
use zookeeper_cpp.Error.Result.{ok}
use zookeeper_cpp.Connection.Match.{is_dot}
use zookeeper_cpp.Connection.Split.{ArePieces, split_each_substr, split_each_substr-join}
use zookeeper_cpp.Connection.Params.{
  Seconds, ConnectionParams, default_params, default_timeout, options, options_of, query_of,
}
use zookeeper_cpp.Connection.Parse.{for_each, extract_advanced_options}

-- A byte of a printed number of seconds: neither '&' nor a line terminator.
abbrev pub is_number_byte : ℕ → Bool
is_number_byte c = except b'&' c && is_dot c

-- A timeout for which the printed count of seconds is a text of such bytes, is not empty and does not
-- begin with 'P', and which `std::stod` and the cast to milliseconds read back as it was.
pub record ReadsBack (sec : Seconds) (t : ℤ) : Type 0 where
  pub first : ℕ
  pub others : Bytes
  pub printed : sec.print_seconds t ≡ first ∷ others
  pub not_period : (first == b'P') ≡ false
  pub bytes_class : IsAll is_number_byte (first ∷ others)
  pub reads_back : sec.stod_millis (first ∷ others) ≡ ok t

-- An option's text: not empty, and of bytes that may stand in a query string's part.
abbrev IsOption : Bytes → Type 0
IsOption x = IsAll is_number_byte x × (x ≢ [])

number_byte-except : (c : ℕ) → is_number_byte c ≡ true → except b'&' c ≡ true
number_byte-except c h = ground arith

number_byte-dot : (c : ℕ) → is_number_byte c ≡ true → is_dot c ≡ true
number_byte-dot c h = ground arith

IsOption-ArePieces : (xs : List Bytes) → All IsOption xs → ArePieces b'&' xs
IsOption-ArePieces [] h = tt
IsOption-ArePieces (x ∷ []) h = (IsAll-mono x number_byte-except h.0.0, h.0.1)
IsOption-ArePieces (x ∷ y ∷ xs) h =
    (IsAll-mono x number_byte-except h.0.0, IsOption-ArePieces (y ∷ xs) h.1)

join_rest-dots : (xs : List Bytes) → All IsOption xs → IsAll is_dot (join_rest (codes "&") xs)
join_rest-dots [] h = tt
join_rest-dots (x ∷ xs) h = (
  refl,
  All-append (λ c. is_dot c ≡ true) x (join_rest (codes "&") xs)
      (IsAll-mono x number_byte-dot h.0.0) (join_rest-dots xs h.1),
)

randomize_text : IsOption (codes "randomize_hosts=false")
randomize_text = (IsAll-intro is_number_byte (codes "randomize_hosts=false") refl, λ e. cc e)

read_only_text : IsOption (codes "read_only=true")
read_only_text = (IsAll-intro is_number_byte (codes "read_only=true") refl, λ e. cc e)

timeout_text : (secs : Bytes) → IsAll is_number_byte secs → IsOption (codes "timeout=" ++ secs)
timeout_text secs h = (
  All-append (λ c. is_number_byte c ≡ true) (codes "timeout=") secs
      (IsAll-intro is_number_byte (codes "timeout=") refl) h,
  λ e. cc e,
)

options-IsOption :
    (rand ro dflt : Bool) (secs : Bytes)
    → IsAll is_number_byte secs
    → All IsOption (options rand ro dflt secs)
options-IsOption true false true secs h = tt
options-IsOption false false true secs h = (randomize_text, tt)
options-IsOption true true true secs h = (read_only_text, tt)
options-IsOption false true true secs h = (randomize_text, (read_only_text, tt))
options-IsOption true false false secs h = (timeout_text secs h, tt)
options-IsOption false false false secs h = (randomize_text, (timeout_text secs h, tt))
options-IsOption true true false secs h = (read_only_text, (timeout_text secs h, tt))
options-IsOption false true false secs h =
    (randomize_text, (read_only_text, (timeout_text secs h, tt)))

-- Parameters that have their first three fields, and defaults.
abbrev pub unset : Bytes → List Bytes → Bytes → ConnectionParams
unset schema hosts chroot = record default_params {
  connection_schema = schema;
  hosts = hosts;
  chroot = chroot;
}

-- An option in front: the first byte of the query string is its '?'.
extract_cons :
    (sec : Seconds) (x : Bytes) (xs : List Bytes) (p q : ConnectionParams)
    → All IsOption (x ∷ xs)
    → for_each sec (p, []) (x ∷ xs) ≡ ok (q, [])
    → extract_advanced_options sec (query_of (x ∷ xs)) p ≡ ok q
unfolding extract_advanced_options
extract_cons sec [] xs p q h e = absurd (h.0.1 refl)
extract_cons sec (c ∷ cs) xs p q h e =
    let split : split_each_substr ((c ∷ cs) ++ join_rest (codes "&") xs) b'&' ≡ (c ∷ cs) ∷ xs =
      unfold join in
      split_each_substr-join b'&' ((c ∷ cs) ∷ xs) (IsOption-ArePieces ((c ∷ cs) ∷ xs) h) in
    rw (split, e)

extract_options :
    (sec : Seconds) (xs : List Bytes) (p q : ConnectionParams)
    → All IsOption xs
    → for_each sec (p, []) xs ≡ ok (q, [])
    → extract_advanced_options sec (query_of xs) p ≡ ok q
unfolding extract_advanced_options for_each
extract_options sec [] p q h e = ground arith
extract_options sec (x ∷ xs) p q h e = extract_cons sec x xs p q h e

module _ (sec : Seconds) (schema : Bytes) (hosts : List Bytes) (chroot : Bytes) where
  -- The parameters with all fields given.
  abbrev all_set : Bool → Bool → ℤ → ConnectionParams
  all_set rand ro t = record {
    connection_schema = schema;
    hosts = hosts;
    chroot = chroot;
    randomize_hosts = rand;
    read_only = ro;
    timeout = t;
  }

  for_each-options :
      (t : ℤ) (r : ReadsBack sec t) (rand ro : Bool)
      → for_each sec (unset schema hosts chroot, []) (options rand ro false (r.first ∷ r.others))
        ≡ ok (all_set rand ro t, [])
  unfolding for_each equal
  for_each-options t r true false = rw (r.not_period, r.reads_back)
  for_each-options t r false false = rw (r.not_period, r.reads_back)
  for_each-options t r true true = rw (r.not_period, r.reads_back)
  for_each-options t r false true = rw (r.not_period, r.reads_back)

  for_each-options_default :
      (secs : Bytes) (rand ro : Bool)
      → for_each sec (unset schema hosts chroot, []) (options rand ro true secs)
        ≡ ok (all_set rand ro default_timeout, [])
  unfolding for_each equal
  for_each-options_default secs true false = refl
  for_each-options_default secs false false = refl
  for_each-options_default secs true true = refl
  for_each-options_default secs false true = refl

  for_each-options_cases :
      (t : ℤ) (r : ReadsBack sec t) (rand ro : Bool)
      → for_each sec
          (unset schema hosts chroot, [])
          (options rand ro (t ==ℤ default_timeout) (r.first ∷ r.others))
        ≡ ok (all_set rand ro t, [])
  for_each-options_cases t r rand ro = elim (Bool-cases (t ==ℤ default_timeout)) [
    | inl e ↦ rw (e, (==ℤ_iff t default_timeout).0 e) (for_each-options_default _ rand ro)
    | inr e ↦ rw e (for_each-options t r rand ro)
  ]

-- The options that are printed are read back.
pub extract_advanced_options-options :
    (sec : Seconds) (x : ConnectionParams)
    → ReadsBack sec x.timeout
    → extract_advanced_options sec
        (query_of (options_of sec x))
        (unset x.connection_schema x.hosts x.chroot)
      ≡ ok x
extract_advanced_options-options sec x r = rw r.printed (
    extract_options sec _ _ x
      (options-IsOption x.randomize_hosts x.read_only (x.timeout ==ℤ default_timeout) _
        r.bytes_class)
      (for_each-options_cases sec x.connection_schema x.hosts x.chroot x.timeout r x.randomize_hosts
        x.read_only))

-- What stands behind the '?' holds no line terminator.
pub query_of-dots :
    (sec : Seconds) (x : ConnectionParams)
    → ReadsBack sec x.timeout
    → (o : Bytes) (os : List Bytes) → options_of sec x ≡ o ∷ os
    → IsAll is_dot (o ++ join_rest (codes "&") os)
query_of-dots sec x r o os e =
    let all : All IsOption (o ∷ os) = rw e at (
      options-IsOption x.randomize_hosts x.read_only (x.timeout ==ℤ default_timeout)
        (sec.print_seconds x.timeout) (rw r.printed r.bytes_class)) in
    All-append (λ c. is_dot c ≡ true) o (join_rest (codes "&") os)
      (IsAll-mono o number_byte-dot all.0.0) (join_rest-dots os all.1)
