-- ===== src/Zk/Request.antt =====
-- The operations of `connection_zk` that make a promise, hand its address to the C library, and satisfy
-- it in the library's callback: `get`, `get_children`, `exists`, `create`, `set`, `erase`, `get_acl`,
-- `set_acl` and `load_fence` (src/zk/connection_zk.cpp).
--
-- The promises that were allocated are a list, and the address of one is its place. The C library's
-- result of a call, and what it hands to a callback, are arguments.
pub mod Delivery
pub mod Outcome
use zookeeper_cpp.Base.{
  ℕ, ℤ, pos, ◌+◌, List, [], ◌∷◌, ◌++◌, Bool, ◌&&◌, Option, none, some, ◌==ℤ◌, if◌then◌else◌, Bytes,
  length, get_elem?, set,
}
use zookeeper_cpp.Acl.Rule.{Acl}
use zookeeper_cpp.Error.Code
use zookeeper_cpp.Error.Code.{ErrorCode}
use zookeeper_cpp.Error.Exn.{throw_error}
use zookeeper_cpp.Types.CreateMode.{CreateMode}
use zookeeper_cpp.Types.Stat.{Stat}
use zookeeper_cpp.Types.Version.{Version}
use zookeeper_cpp.Zk.Adaptors.{
  to_int, error_code_from_raw, stat_from_raw, string_vector_from_raw, c_string, with_str, with_acl,
  acl_from_raw,
}
use zookeeper_cpp.Zk.Promise.{Promise, unset, value, exception, satisfy}
use zookeeper_cpp.Zk.Zoo.{Zoo, RawStat, RawAclVector}

-- The result types of src/zk/results.hpp that these operations have; `nothing` is that of a
-- `future<void>`.
pub data Reply : Type 0 where
  get_result : Bytes → Stat → Reply
  get_children_result : List Bytes → Stat → Reply
  exists_result : Option Stat → Reply
  create_result : Bytes → Reply
  set_result : Stat → Reply
  get_acl_result : Acl → Stat → Reply
  nothing : Reply

-- A call of one of the operations, with its arguments.
pub data Request : Type 0 where
  get get_children exists : Bytes → Request
  create : Bytes → Bytes → Acl → CreateMode → Request
  set_data : Bytes → Bytes → Version → Request
  erase : Bytes → Version → Request
  get_acl : Bytes → Request
  set_acl : Bytes → Acl → Version → Request
  load_fence : Request

-- The asynchronous function of the C library that is called, with its arguments but for the handle, the
-- callback and the promise's address.
pub data ZooCall : Type 0 where
  zoo_aget : Bytes → ℤ → ZooCall
  zoo_aget_children2 : Bytes → ℤ → ZooCall
  zoo_aexists : Bytes → ℤ → ZooCall
  zoo_acreate : Bytes → Bytes → ℤ → RawAclVector → ℤ → ZooCall
  zoo_aset : Bytes → Bytes → ℤ → ℤ → ZooCall
  zoo_adelete : Bytes → ℤ → ZooCall
  zoo_aget_acl : Bytes → ZooCall
  zoo_aset_acl : Bytes → ℤ → RawAclVector → ZooCall
  zoo_async : Bytes → ZooCall

unfoldable pub zoo_call : Request → ZooCall
zoo_call (get path) = zoo_aget (with_str path) (pos 0)
zoo_call (get_children path) = zoo_aget_children2 (with_str path) (pos 0)
zoo_call (exists path) = zoo_aexists (with_str path) (pos 0)
zoo_call (create path d rules mode) =
    zoo_acreate (with_str path) d (to_int (length d)) (with_acl rules) (to_int mode)
zoo_call (set_data path d check) = zoo_aset (with_str path) d (to_int (length d)) check.value
zoo_call (erase path check) = zoo_adelete (with_str path) check.value
zoo_call (get_acl path) = zoo_aget_acl (with_str path)
zoo_call (set_acl path rules check) = zoo_aset_acl (with_str path) check.value (with_acl rules)
zoo_call load_fence = zoo_async (b'/' ∷ [])

-- What the library hands to the callback of an operation beside the result code.
abbrev pub Payload : Request → Type 0
Payload (get _) = Bytes × RawStat
Payload (get_children _) = List Bytes × RawStat
Payload (exists _) = RawStat
Payload (create _ _ _ _) = Bytes
Payload (set_data _ _ _) = RawStat
Payload (erase _ _) = Unit {0}
Payload (get_acl _) = RawAclVector × RawStat
Payload (set_acl _ _ _) = Unit {0}
Payload load_fence = Bytes

-- `set_value` of what was decoded if the code is `ok`, and otherwise `set_exception`.
abbrev or_throw : ErrorCode → Reply → Promise Reply
or_throw rc reply = if rc ==ℤ Code.ok then value reply else exception (throw_error rc)

-- What the callback of each operation sets its promise to.
callback_rc : ErrorCode → (r : Request) → Payload r → Promise Reply
callback_rc rc (get _) (d, pstat) = or_throw rc (get_result d (stat_from_raw pstat))
callback_rc rc (get_children _) (strings_in, stat_in) =
    or_throw rc (get_children_result (string_vector_from_raw strings_in) (stat_from_raw stat_in))
callback_rc rc (exists _) stat_in =
    if rc ==ℤ Code.ok
    then value (exists_result (some (stat_from_raw stat_in)))
    else if rc ==ℤ Code.no_entry
    then value (exists_result none)
    else exception (throw_error rc)
callback_rc rc (create _ _ _ _) name_in = or_throw rc (create_result (c_string name_in))
callback_rc rc (set_data _ _ _) stat_raw = or_throw rc (set_result (stat_from_raw stat_raw))
callback_rc rc (erase _ _) _ = or_throw rc nothing
callback_rc rc (get_acl _) (acl_raw, stat_raw) =
    or_throw rc (get_acl_result (acl_from_raw acl_raw) (stat_from_raw stat_raw))
callback_rc rc (set_acl _ _ _) _ = or_throw rc nothing
callback_rc rc load_fence _ = or_throw rc nothing

unfoldable pub callback : Zoo → (r : Request) → ℤ → Payload r → Promise Reply
unfolding callback_rc
callback zoo r rc_in payload = callback_rc (error_code_from_raw zoo rc_in) r payload

abbrev pub Heap : Type 0
Heap = List (Promise Reply)

-- An operation but for `load_fence`, up to its return: a new promise, which is released to the library if that takes the
-- request, and otherwise gets the exception. The second part is the promise's address.
unfoldable pub submit : Zoo → ℤ → Heap → Heap × ℕ
submit zoo rc_in heap =
    let rc : ErrorCode = error_code_from_raw zoo rc_in in
    let prom : Promise Reply = if rc ==ℤ Code.ok then unset else exception (throw_error rc) in
    (heap ++ prom ∷ [], length heap)

-- `load_fence` takes the future of its promise only after the call, when the callback may have run in
-- the library's thread and have deleted the promise. That is a fault, `none`.
unfoldable pub submit_fence : Zoo → ℤ → Bool → Heap → Option (Heap × ℕ)
unfolding submit
submit_fence zoo rc_in called_back heap =
    if (error_code_from_raw zoo rc_in ==ℤ Code.ok) && called_back
    then none
    else some (submit zoo rc_in heap)

store : ℕ → Heap → Option (Promise Reply) → Option Heap
store prom_in heap none = none
store prom_in heap (some p) = some (set heap prom_in p)

run_callback_at :
    Zoo → (r : Request) → ℤ → Payload r → ℕ → Heap → Option (Promise Reply) → Option Heap
unfolding store
run_callback_at zoo r rc_in payload prom_in heap none = none
run_callback_at zoo r rc_in payload prom_in heap (some p) =
    store prom_in heap (satisfy p (callback zoo r rc_in payload))

-- A callback, on the promise at the address that it is given. The result `none` is an address that is
-- no promise, or `std::future_error`.
unfoldable pub run_callback : Zoo → (r : Request) → ℤ → Payload r → ℕ → Heap → Option Heap
unfolding run_callback_at
run_callback zoo r rc_in payload prom_in heap =
    run_callback_at zoo r rc_in payload prom_in heap (get_elem? heap prom_in)
