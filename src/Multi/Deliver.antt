-- ===== src/Multi/Deliver.antt =====
-- `connection_zk_commit_completer::deliver` (src/zk/connection_zk.cpp): what the promise of a transaction
-- gets, from the results that the C library left.
use zookeeper_cpp.Base.{
  ℕ, ℤ, pos, zero, suc, ◌<◌, ◌≤◌, Bool, true, false, List, [], ◌∷◌, ◌++◌, All, length-append, arith,
  Option, none, some, ◌==ℤ◌, ◌≡◌, ◌≢◌, refl, inl, inr, Bool-cases, ==ℤ_iff, if◌then◌else◌, Bytes,
  length, get_elem?,
}
use zookeeper_cpp.Error.Code
use zookeeper_cpp.Error.Code.{ErrorCode}
use zookeeper_cpp.Error.Exn.{make_transaction_failed}
use zookeeper_cpp.Error.Result.{ok}
use zookeeper_cpp.Zk.Adaptors.{stat_from_raw}
use zookeeper_cpp.Zk.Promise.{Promise, value, exception}
use zookeeper_cpp.Zk.Zoo.{RawStat}
use zookeeper_cpp.Multi.Op.{Op, check_op, create_op, erase_op, set_op, op_type}
use zookeeper_cpp.Multi.Op
use zookeeper_cpp.Multi.Part.{
  Part, MultiResult, plain_part, create_part, set_part, as_create, as_set,
}
use zookeeper_cpp.Multi.Partition.{partition_point, PartitionedAt, partition_point_lem}

-- `zoo_op_result_t`: its text is what is read through its pointer, and `none` is a null pointer.
pub record RawResult : Type 0 where
  pub err : ℤ
  pub value : Option Bytes
  pub stat : Option RawStat

create_from : Option Bytes → Option Part
create_from none = none
create_from (some name) = some (create_part name)

set_from : Option RawStat → Option Part
set_from none = none
set_from (some s) = some (set_part (stat_from_raw s))

-- One round of the loop. The result `none` is the use of a null pointer.
deliver_part : Op → RawResult → Option Part
unfolding create_from set_from op_type
deliver_part (create_op x) raw_res = create_from raw_res.value
deliver_part (set_op x) raw_res = set_from raw_res.stat
deliver_part op raw_res = some (plain_part (op_type op))

cons_part : Option Part → Option MultiResult → Option MultiResult
cons_part none parts = none
cons_part (some p) none = none
cons_part (some p) (some parts) = some (p ∷ parts)

deliver_parts : List Op → List RawResult → Option MultiResult
unfolding deliver_part cons_part
deliver_parts [] results = some []
deliver_parts (op ∷ txn) [] = none
deliver_parts (op ∷ txn) (raw_res ∷ results) =
    cons_part (deliver_part op raw_res) (deliver_parts txn results)

deliver_values : Option MultiResult → Option (Promise MultiResult)
deliver_values none = none
deliver_values (some out) = some (value out)

-- The test of the search, `res.err == 0`, at a place.
succeeded : Option RawResult → Bool
succeeded none = false
succeeded (some res) = res.err ==ℤ pos 0

unfoldable pub succeeded_at : List RawResult → ℕ → Bool
unfolding succeeded
succeeded_at results i = succeeded (get_elem? results i)

-- What `deliver` satisfies the promise with.
unfoldable pub deliver : ErrorCode → List Op → List RawResult → Option (Promise MultiResult)
unfolding deliver_parts deliver_values succeeded_at
deliver rc txn raw_results =
    if rc ==ℤ Code.ok
    then deliver_values (deliver_parts txn raw_results)
    else some (
        exception (
          make_transaction_failed rc
            (partition_point (succeeded_at raw_results) (length raw_results))))

-- The results that the library documents for a transaction that succeeded: one for each operation, a
-- create's with its name and a set's with its stat.
pub data IsFilled : List Op → List RawResult → Type 0 where
  end : IsFilled [] []
  checked :
      {txn : List Op} {results : List RawResult} (x : Op.CheckData) (r : RawResult)
      → IsFilled txn results
      → IsFilled (check_op x ∷ txn) (r ∷ results)
  erased :
      {txn : List Op} {results : List RawResult} (x : Op.EraseData) (r : RawResult)
      → IsFilled txn results
      → IsFilled (erase_op x ∷ txn) (r ∷ results)
  created :
      {txn : List Op} {results : List RawResult} (x : Op.CreateData) (r : RawResult) (name : Bytes)
      → r.value ≡ some name
      → IsFilled txn results
      → IsFilled (create_op x ∷ txn) (r ∷ results)
  was_set :
      {txn : List Op} {results : List RawResult} (x : Op.SetData) (r : RawResult) (s : RawStat)
      → r.stat ≡ some s
      → IsFilled txn results
      → IsFilled (set_op x ∷ txn) (r ∷ results)

-- What the part of an operation has, for its raw result.
abbrev pub Answers : Op → RawResult → Part → Type 0
Answers (create_op x) r p =
    (p.type ≡ Op.create) × ((name : Bytes) × (r.value ≡ some name) × (as_create p ≡ ok name))
Answers (set_op x) r p =
    (p.type ≡ Op.set) × ((s : RawStat) × (r.stat ≡ some s) × (as_set p ≡ ok (stat_from_raw s)))
Answers op r p = p.type ≡ op_type op

abbrev pub AnswersAll : List Op → List RawResult → MultiResult → Type 0
AnswersAll [] _ [] = Unit
AnswersAll (op ∷ txn) (r ∷ results) (p ∷ parts) = Answers op r p × AnswersAll txn results parts
AnswersAll _ _ _ = ⊥

deliver_parts_lem :
    {txn : List Op} {results : List RawResult}
    → IsFilled txn results
    → (out : MultiResult) × (deliver_parts txn results ≡ some out) × AnswersAll txn results out
unfolding deliver_parts as_create as_set op_type
deliver_parts_lem end = ([], refl, tt)
deliver_parts_lem (checked x r f) =
    let (out, e, a) = deliver_parts_lem f in (plain_part Op.check ∷ out, rw e refl, (refl, a))
deliver_parts_lem (erased x r f) =
    let (out, e, a) = deliver_parts_lem f in (plain_part Op.erase ∷ out, rw e refl, (refl, a))
deliver_parts_lem (created x r name v f) =
    let (out, e, a) = deliver_parts_lem f in
    (create_part name ∷ out, rw (v, e) refl, ((refl, (name, v, refl)), a))
deliver_parts_lem (was_set x r s v f) =
    let (out, e, a) = deliver_parts_lem f in
    (set_part (stat_from_raw s) ∷ out, rw (v, e) refl, ((refl, (s, v, refl)), a))

-- A transaction that succeeded, with the results that the library documents: the promise gets as many
-- parts as there are operations, in their order; each has its operation's type, a create's its name and
-- a set's its stat.
pub deliver-ok :
    (txn : List Op) (results : List RawResult)
    → IsFilled txn results
    → (out : MultiResult) × (deliver Code.ok txn results ≡ some (value out))
      × AnswersAll txn results out
unfolding deliver
deliver-ok txn results f = let (out, e, a) = deliver_parts_lem f in (out, rw e refl, a)

succeeded_at-holds :
    (good bad : List RawResult) (i : ℕ)
    → All (λ (x : RawResult). x.err ≡ pos 0) good
    → i < length good
    → succeeded_at (good ++ bad) i ≡ true
unfolding succeeded_at
succeeded_at-holds [] bad i h lt = absurd (omega arith)
succeeded_at-holds (x ∷ good) bad zero h lt = rw h.0 refl
succeeded_at-holds (x ∷ good) bad (suc i) h lt = succeeded_at-holds good bad i h.1 (omega arith)

succeeded_at-fails :
    (good bad : List RawResult) (i : ℕ)
    → All (λ (x : RawResult). x.err ≢ pos 0) bad
    → length good ≤ i
    → i < length (good ++ bad)
    → succeeded_at (good ++ bad) i ≡ false
unfolding succeeded_at
succeeded_at-fails [] [] i h le lt = absurd (omega arith)
succeeded_at-fails [] (x ∷ bad) zero h le lt = elim (Bool-cases (x.err ==ℤ pos 0)) [
  | inl same ↦ absurd (h.0 ((==ℤ_iff _ _).0 same))
  | inr differ ↦ differ
]
succeeded_at-fails [] (x ∷ bad) (suc i) h le lt =
    succeeded_at-fails [] bad i h.1 (omega arith) (omega arith)
succeeded_at-fails (x ∷ good) bad zero h le lt = absurd (omega arith)
succeeded_at-fails (x ∷ good) bad (suc i) h le lt =
    succeeded_at-fails good bad i h (omega arith) (omega arith)

-- A transaction that failed, with any operations: if the library left results that are 0 first and not
-- 0 from there on, as it documents, the promise gets `transaction_failed` with the code and the number
-- of the results that are 0, which is the place of the operation that failed. It gets that for every code,
-- those of errors outside of the transaction included, and with the place 0 if no result is 0.
pub deliver-failed :
    (rc : ErrorCode) (txn : List Op) (good bad : List RawResult)
    → rc ≢ Code.ok
    → All (λ (x : RawResult). x.err ≡ pos 0) good
    → All (λ (x : RawResult). x.err ≢ pos 0) bad
    → deliver rc txn (good ++ bad) ≡ some (exception (make_transaction_failed rc (length good)))
unfolding deliver
deliver-failed rc txn good bad ne zeros others =
    let v : PartitionedAt (succeeded_at (good ++ bad)) (length good) (length (good ++ bad)) =
      record {
        holds = λ i lt. succeeded_at-holds good bad i zeros lt;
        fails = λ i le lt. succeeded_at-fails good bad i others le lt;
      } in
    let len = length-append good bad in
    elim (Bool-cases (rc ==ℤ Code.ok)) [
      | inl same ↦ absurd (ne ((==ℤ_iff _ _).0 same))
      | inr differ ↦
          rw (differ, partition_point_lem (succeeded_at (good ++ bad)) _ _ v (omega (arith, len)))
            refl
    ]
