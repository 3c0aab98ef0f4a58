-- ===== src/Multi/Commit.antt =====
-- `connection_zk::commit` (src/zk/connection_zk.cpp): what it hands to the C library, up to its return.
--
-- `encoded_acls` and `acl_pieces` are arrays of the sizes that are counted first, filled through a
-- pointer that moves up; a write past the end is the result `none`. A pointer into an array is its place.
use zookeeper_cpp.Base.{
  ℕ, ℤ, suc, ◌+◌, Bool, true, false, List, [], ◌∷◌, ◌++◌, Option, none, some, ◌==ℤ◌, ==ℤ_iff,
  Bool-cases, inl, inr, ◌≡◌, ◌≢◌, refl, ltb, if◌then◌else◌, Bytes, length,
}
use zookeeper_cpp.Acl.Rule.{Acl}
use zookeeper_cpp.Error.Code
use zookeeper_cpp.Error.Code.{ErrorCode}
use zookeeper_cpp.Error.Exn.{Exn, throw_error, future_error}
use zookeeper_cpp.Types.CreateMode
use zookeeper_cpp.Types.CreateMode.{CreateMode}
use zookeeper_cpp.Zk.Adaptors.{to_int, error_code_from_raw, encode_acl_part}
use zookeeper_cpp.Zk.Promise.{Promise, unset, exception, satisfy}
use zookeeper_cpp.Zk.Zoo.{Zoo, RawAcl}
use zookeeper_cpp.Multi.Op.{Op, check_op, create_op, erase_op, set_op}
use zookeeper_cpp.Multi.Part.{MultiResult}

-- `zoo_op`, by the function that fills it. A create has the places of its ACL and its path buffer and
-- the buffer's size; a set has the place of its stat.
pub data RawOp : Type 0 where
  zoo_check_op : Bytes → ℤ → RawOp
  zoo_create_op : Bytes → Bytes → ℤ → ℕ → ℤ → ℕ → ℤ → RawOp
  zoo_delete_op : Bytes → ℤ → RawOp
  zoo_set_op : Bytes → Bytes → ℤ → ℤ → ℕ → RawOp

-- The arrays of the call, and the keys of the completer's maps, with the size of each path buffer.
pub record Encoder : Type 0 where
  pub raw_ops : List RawOp
  pub encoded_acls : List (ℤ × ℕ)
  pub acl_pieces : List RawAcl
  pub path_buffers : List (ℕ × ℕ)
  pub raw_stats : List ℕ

abbrev pub start : Encoder
start = record {
  raw_ops = [];
  encoded_acls = [];
  acl_pieces = [];
  path_buffers = [];
  raw_stats = [];
}

unfoldable pub create_op_count : List Op → ℕ
create_op_count [] = 0
create_op_count (create_op x ∷ txn) = 1 + create_op_count txn
create_op_count (_ ∷ txn) = create_op_count txn

unfoldable pub acl_piece_count : List Op → ℕ
acl_piece_count [] = 0
acl_piece_count (create_op x ∷ txn) = length x.rules + acl_piece_count txn
acl_piece_count (_ ∷ txn) = acl_piece_count txn

-- A write through the pointer into an array of `capacity` elements, which then moves up.
unfoldable pub put {ℓ} : {A : Type ℓ} → ℕ → List A → A → Option (List A)
put capacity xs x = if ltb (length xs) capacity then some (xs ++ x ∷ []) else none

unfoldable pub put_rules : ℕ → List RawAcl → Acl → Option (List RawAcl)
unfolding put
put_rules capacity pieces [] = some pieces
put_rules capacity pieces (rule ∷ rules) = elim (put capacity pieces (encode_acl_part rule)) [
  | none ↦ none
  | some pieces' ↦ put_rules capacity pieces' rules
]

-- The size that `path_buffer_for` gives the buffer.
unfoldable pub path_buffer_size : Bytes → CreateMode → ℕ
path_buffer_size path mode =
    length path + (if CreateMode.is_set mode CreateMode.sequential then 12 else 1)

encode_create :
    ℕ
    → Bytes
    → Bytes
    → CreateMode
    → Encoder
    → Option (List (ℤ × ℕ))
    → Option (List RawAcl)
    → Option Encoder
unfolding path_buffer_size
encode_create idx path contents mode s none _ = none
encode_create idx path contents mode s (some acls) none = none
encode_create idx path contents mode s (some acls) (some pieces) =
    let size : ℕ = path_buffer_size path mode in
    some (record s {
      raw_ops =
          s.raw_ops
          ++ zoo_create_op path contents (to_int (length contents)) (length s.encoded_acls)
              (to_int mode) idx (to_int size)
            ∷ [];
      encoded_acls = acls;
      acl_pieces = pieces;
      path_buffers = s.path_buffers ++ (idx, size) ∷ [];
    })

-- One round of the loop over the operations, for the capacities of the two arrays.
unfoldable pub encode_op : ℕ → ℕ → ℕ → Op → Encoder → Option Encoder
unfolding encode_create put_rules put
encode_op creates pieces idx (check_op x) s =
    some (record s { raw_ops = s.raw_ops ++ zoo_check_op x.path x.check.value ∷ [] })
encode_op creates pieces idx (create_op x) s =
    encode_create idx x.path x.contents x.mode s
      (put creates s.encoded_acls (to_int (length x.rules), length s.acl_pieces))
      (put_rules pieces s.acl_pieces x.rules)
encode_op creates pieces idx (erase_op x) s =
    some (record s { raw_ops = s.raw_ops ++ zoo_delete_op x.path x.check.value ∷ [] })
encode_op creates pieces idx (set_op x) s = some (record s {
  raw_ops =
      s.raw_ops ++ zoo_set_op x.path x.contents (to_int (length x.contents)) x.check.value idx ∷ [];
  raw_stats = s.raw_stats ++ idx ∷ [];
})

unfoldable pub encode_ops : ℕ → ℕ → ℕ → List Op → Encoder → Option Encoder
unfolding encode_op
encode_ops creates pieces idx [] s = some s
encode_ops creates pieces idx (op ∷ txn) s = elim (encode_op creates pieces idx op s) [
  | none ↦ none
  | some s' ↦ encode_ops creates pieces (suc idx) txn s'
]

unfoldable pub encode : List Op → Option Encoder
unfolding encode_ops
encode txn = encode_ops (create_op_count txn) (acl_piece_count txn) 0 txn start

-- The promise of the completer, and whether its future was taken.
pub record CommitPromise : Type 0 where
  pub result : Promise MultiResult
  pub retrieved : Bool

-- A statement on it: the promise after it, and the exception that it throws.
abbrev pub Action : Type 0
Action = CommitPromise → CommitPromise × Option Exn

get_future : Action
get_future p = if p.retrieved then (p, some future_error) else (record p { retrieved = true }, none)

stored : CommitPromise → Option (Promise MultiResult) → CommitPromise × Option Exn
stored p none = (p, some future_error)
stored p (some r) = (record p { result = r }, none)

set_exception : Exn → Action
unfolding stored
set_exception e p = stored p (satisfy p.result (exception e))

after : CommitPromise × Option Exn → (Exn → Action) → Action → CommitPromise × Option Exn
after (p, none) on_throw next = next p
after (p, some e) on_throw next = on_throw e p

rethrow : Exn → Action
rethrow e p = (p, some e)

done : Action
done p = (p, none)

-- `set_exception` and the return of `get_future`, which stand in the `try` and in its `catch`.
fail_with : Exn → Action
unfolding after set_exception rethrow get_future
fail_with e p = after (set_exception e p) rethrow get_future

send : ErrorCode → Action
unfolding after get_future rethrow done fail_with
send rc p =
    after (get_future p) rethrow (if rc ==ℤ Code.ok then done else fail_with (throw_error rc))

commit_encoded : ErrorCode → Option Encoder → Option (Encoder × CommitPromise × Option Exn)
unfolding send after fail_with done
commit_encoded rc none = none
commit_encoded rc (some s) =
    let (p, thrown) =
      after (send rc (record { result = unset; retrieved = false })) fail_with done in
    some (s, p, thrown)

-- `commit`, for the result of `zoo_amulti`: what the library was handed, the promise, and the exception
-- that leaves `commit`, if one does.
unfoldable pub commit : Zoo → ℤ → List Op → Option (Encoder × CommitPromise × Option Exn)
unfolding encode commit_encoded
commit zoo rc_in txn = commit_encoded (error_code_from_raw zoo rc_in) (encode txn)

-- A request that the library refuses: whatever its code and the transaction, `commit` does not return a
-- future. It asks for the future of its promise a second time, catches the `std::future_error` of that,
-- sets the promise, which has a result already, a second time, and so throws `std::future_error`.
pub commit-refused :
    (zoo : Zoo) (rc_in : ℤ) (txn : List Op) (s : Encoder)
    → encode txn ≡ some s
    → error_code_from_raw zoo rc_in ≢ Code.ok
    → commit zoo rc_in txn
      ≡ some (
        s,
        record {
          result = exception (throw_error (error_code_from_raw zoo rc_in));
          retrieved = true;
        },
        some future_error,
      )
unfolding commit get_future set_exception
commit-refused zoo rc_in txn s e refused =
    elim (Bool-cases (error_code_from_raw zoo rc_in ==ℤ Code.ok)) [
      | inl taken ↦ absurd (refused ((==ℤ_iff _ _).0 taken))
      | inr differ ↦ rw (e, differ) refl
    ]
