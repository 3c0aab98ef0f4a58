-- ===== src/Zk/Adaptors.antt =====
-- The native adaptors of src/zk/connection_zk.cpp.
use zookeeper_cpp.Base.{
  ℕ, ℤ, pos, negsuc, ◌-◌, ◌^◌, ◌%◌, List, [], ◌∷◌, ◌==ℤ◌, ◌==◌, ltb, zero, suc, length,
  if◌then◌else◌, Bytes, map, to_word,
}
use zookeeper_cpp.Acl.Rule.{Acl, AclRule}
use zookeeper_cpp.Error.Code.{ErrorCode}
use zookeeper_cpp.Types.EventType.{EventType}
use zookeeper_cpp.Types.State.{State}
use zookeeper_cpp.Types.Stat.{Stat}
use zookeeper_cpp.Zk.Zoo.{Zoo, RawStat, RawAcl, RawAclVector}

-- The cast of an unsigned 32-bit number to `int`.
unfoldable pub to_int : ℕ → ℤ
to_int n = if ltb (n % 2 ^ 32) (2 ^ 31) then pos (n % 2 ^ 32) else negsuc (2 ^ 32 - 1 - n % 2 ^ 32)

unfoldable pub error_code_from_raw : Zoo → ℤ → ErrorCode
error_code_from_raw zoo raw =
    if raw ==ℤ zoo.operation_timeout
    then zoo.connection_loss
    else if raw ==ℤ zoo.invalid_callback
    then zoo.bad_arguments
    else if raw ==ℤ zoo.invalid_acl
    then zoo.bad_arguments
    else if raw ==ℤ zoo.session_moved
    then zoo.connection_loss
    else raw

abbrev pub event_from_raw : ℤ → EventType
event_from_raw raw = raw

unfoldable pub state_from_raw : Zoo → ℤ → State
state_from_raw zoo raw =
    if raw ==ℤ zoo.not_connected_state
    then zoo.connecting_state
    else if raw ==ℤ zoo.associating_state
    then zoo.connecting_state
    else raw

unfoldable pub stat_from_raw : RawStat → Stat
stat_from_raw raw = record {
  create_transaction = to_word 64 raw.czxid;
  modified_transaction = to_word 64 raw.mzxid;
  child_modified_transaction = to_word 64 raw.pzxid;
  create_time = raw.ctime;
  modified_time = raw.mtime;
  data_version = record { value = raw.version };
  child_version = record { value = raw.cversion };
  acl_version = record { value = raw.aversion };
  ephemeral_owner = to_word 64 raw.ephemeral_owner;
  data_size = to_word 64 raw.data_length;
  children_count = to_word 64 raw.num_children;
}

-- What is read through a `char` pointer to a text: its bytes before the first that is 0. So the library
-- reads what `c_str` and `with_str` hand to it, and so `std::string` copies.
unfoldable pub c_string : Bytes → Bytes
c_string [] = []
c_string (c ∷ cs) = let rest = c_string cs in if c == 0 then [] else c ∷ rest

-- `with_str`: the text that the function of the library reads.
unfoldable pub with_str : Bytes → Bytes
with_str src = c_string src

-- The copy of a vector of C strings.
unfoldable pub string_vector_from_raw : List Bytes → List Bytes
string_vector_from_raw [] = []
string_vector_from_raw (x ∷ xs) = c_string x ∷ string_vector_from_raw xs

unfoldable pub encode_acl_part : AclRule → RawAcl
encode_acl_part src = record {
  perms = to_int src.permissions;
  scheme = c_string src.scheme;
  id = c_string src.id;
}

-- The vector that `with_acl` hands to its action.
unfoldable pub with_acl : Acl → RawAclVector
with_acl rules = record { count = to_int (length rules); items = map encode_acl_part rules }

unfoldable pub acl_part_from_raw : RawAcl → AclRule
acl_part_from_raw item = record {
  scheme = c_string item.scheme;
  id = c_string item.id;
  permissions = to_word 32 item.perms;
}

unfoldable pub acl_items : ℕ → List RawAcl → Acl
unfolding acl_part_from_raw
acl_items zero items = []
acl_items (suc n) [] = []
acl_items (suc n) (x ∷ items) = acl_part_from_raw x ∷ acl_items n items

-- `acl_from_raw`. The array has at least as many items as the vector counts; where it has not, which the
-- library does not hand out, this stops at its end.
unfoldable pub acl_from_raw : RawAclVector → Acl
unfolding acl_items
acl_from_raw raw = acl_items (to_word 64 raw.count) raw.items
