-- ===== src/Connection/Params.antt =====
-- `connection_params` (src/zk/connection.hpp, src/zk/connection.cpp): its fields, defaults, equality and
-- printed form.
use zookeeper_cpp.Base.{
  ℤ, pos, Bool, true, false, not, ◌&&◌, List, [], ◌∷◌, ◌++◌, ◌≡◌, ◌↔◌, arith, ◌==ℤ◌, ==ℤ_iff,
  if◌then◌else◌, Bytes, codes, equal, equal_iff, append-nil, append_assoc, join_rest, join,
}
use zookeeper_cpp.Error.Result.{Result}

-- The floating point steps around a timeout: `std::stod` with the cast of its seconds to milliseconds,
-- and the output of a duration's count of seconds.
pub record Seconds : Type 0 where
  pub stod_millis : Bytes → Result ℤ
  pub print_seconds : ℤ → Bytes

pub record ConnectionParams : Type 0 where
  pub connection_schema : Bytes
  pub hosts : List Bytes
  pub chroot : Bytes
  pub randomize_hosts : Bool
  pub read_only : Bool
  pub timeout : ℤ

-- `std::chrono::seconds(10)`, in milliseconds.
abbrev pub default_timeout : ℤ
default_timeout = pos 10000

-- The default constructor.
abbrev pub default_params : ConnectionParams
default_params = record {
  connection_schema = codes "zk";
  hosts = [];
  chroot = codes "/";
  randomize_hosts = true;
  read_only = false;
  timeout = default_timeout;
}

abbrev pub equal_bool : Bool → Bool → Bool
equal_bool true b = b
equal_bool false b = not b

-- `operator==` of a vector of strings.
unfoldable pub equal_list : List Bytes → List Bytes → Bool
equal_list [] [] = true
equal_list (x ∷ xs) (y ∷ ys) = equal x y && equal_list xs ys
equal_list _ _ = false

-- `operator==`.
unfoldable pub params_equal : ConnectionParams → ConnectionParams → Bool
unfolding equal_list
params_equal lhs rhs =
    equal lhs.connection_schema rhs.connection_schema
    && equal_list lhs.hosts rhs.hosts
    && equal lhs.chroot rhs.chroot
    && equal_bool lhs.randomize_hosts rhs.randomize_hosts
    && equal_bool lhs.read_only rhs.read_only
    && lhs.timeout ==ℤ rhs.timeout

-- The stream and the `first` flag that the lambda `query_string` captures.
abbrev QueryOut : Type 0
QueryOut = Bytes × Bool

-- `query_string`.
query_string : Bytes → Bytes → QueryOut → QueryOut
query_string key val (os, first) =
    (os ++ (if first then codes "?" else codes "&") ++ key ++ codes "=" ++ val, false)

-- The end of `operator<<`: the three tests, in order, each of which may print an option.
print_options : Bool → Bool → Bool → Bytes → QueryOut → QueryOut
unfolding query_string
print_options randomize_hosts read_only is_default seconds q0 =
    let q1 : QueryOut =
      if not randomize_hosts
      then query_string (codes "randomize_hosts") (codes "false") q0
      else q0 in
    let q2 : QueryOut =
      if read_only then query_string (codes "read_only") (codes "true") q1 else q1 in
    if not is_default then query_string (codes "timeout") seconds q2 else q2

-- `operator<<` and `to_string`.
unfoldable pub to_string : Seconds → ConnectionParams → Bytes
unfolding print_options
to_string sec x =
    let os : Bytes = x.connection_schema ++ codes "://" ++ join (codes ",") x.hosts ++ x.chroot in
    (print_options x.randomize_hosts x.read_only (x.timeout ==ℤ default_timeout)
      (sec.print_seconds x.timeout) (os, true)).0

equal_list_iff : (a b : List Bytes) → (equal_list a b ≡ true) ↔ (a ≡ b)
unfolding equal_list
equal_list_iff (x ∷ a) (y ∷ b) = ground (arith, equal_iff x y, equal_list_iff a b)
equal_list_iff _ _ = ground arith

-- The options that are printed, in order.
abbrev pub options : Bool → Bool → Bool → Bytes → List Bytes
options true false true secs = []
options false false true secs = codes "randomize_hosts=false" ∷ []
options true true true secs = codes "read_only=true" ∷ []
options false true true secs = codes "randomize_hosts=false" ∷ codes "read_only=true" ∷ []
options true false false secs = (codes "timeout=" ++ secs) ∷ []
options false false false secs = codes "randomize_hosts=false" ∷ (codes "timeout=" ++ secs) ∷ []
options true true false secs = codes "read_only=true" ∷ (codes "timeout=" ++ secs) ∷ []
options false true false secs =
    codes "randomize_hosts=false" ∷ codes "read_only=true" ∷ (codes "timeout=" ++ secs) ∷ []

abbrev pub query_of : List Bytes → Bytes
query_of [] = []
query_of (x ∷ xs) = b'?' ∷ (x ++ join_rest (codes "&") xs)

print_options_lem :
    (rand ro dflt : Bool) (secs os : Bytes)
    → (print_options rand ro dflt secs (os, true)).0 ≡ os ++ query_of (options rand ro dflt secs)
unfolding print_options
print_options_lem true false true secs os = simp append-nil
print_options_lem true false false secs os = simp (append_assoc, append-nil)
print_options_lem true true true secs os = simp (append_assoc, append-nil)
print_options_lem true true false secs os = simp (append_assoc, append-nil)
print_options_lem false true true secs os = simp (append_assoc, append-nil)
print_options_lem false true false secs os = simp (append_assoc, append-nil)
print_options_lem false false true secs os = simp (append_assoc, append-nil)
print_options_lem false false false secs os = simp (append_assoc, append-nil)

abbrev pub options_of : Seconds → ConnectionParams → List Bytes
options_of sec x =
    options x.randomize_hosts x.read_only (x.timeout ==ℤ default_timeout)
      (sec.print_seconds x.timeout)

-- The printed parameters, bracketed to the right.
pub to_string_lem :
    (sec : Seconds) (x : ConnectionParams)
    → to_string sec x
      ≡ x.connection_schema
        ++ b':'
          ∷ b'/'
          ∷ b'/'
          ∷ (join (codes ",") x.hosts ++ (x.chroot ++ query_of (options_of sec x)))
unfolding to_string
to_string_lem sec x = rw print_options_lem (simp append_assoc)

-- The comparison of parameters says `true` exactly for equal parameters.
pub params_equal_iff : (a b : ConnectionParams) → (params_equal a b ≡ true) ↔ (a ≡ b)
unfolding params_equal
params_equal_iff a b = ground (
  arith,
  equal_iff a.connection_schema b.connection_schema,
  equal_list_iff a.hosts b.hosts,
  equal_iff a.chroot b.chroot,
  ==ℤ_iff a.timeout b.timeout,
)
