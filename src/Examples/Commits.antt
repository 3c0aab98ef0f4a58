-- ===== src/Examples/Commits.antt =====
-- A transaction of src/zk/multi.hpp, its request and its result, and the error codes of src/zk/error.hpp.
use zookeeper_cpp.Base.{
  pos, neg, List, true, [], ◌∷◌, none, some, ◌≡◌, ◌≢◌, ◌↔◌, refl, codes, length,
}
use zookeeper_cpp.Acl.Rule.{open_unsafe}
use zookeeper_cpp.Error.Classes.{throw_error-classes}
use zookeeper_cpp.Error.Code
use zookeeper_cpp.Error.Exn.{
  transport_error, invalid_arguments, invalid_ensemble_state, invalid_connection_state,
  check_failed, catches, throw_error, make_transaction_failed, future_error,
}
use zookeeper_cpp.Error.Kinds.{
  is_transport_error, is_invalid_arguments, is_invalid_ensemble_state, is_invalid_connection_state,
  is_check_failed,
}
use zookeeper_cpp.Error.Result.{ok}
use zookeeper_cpp.Types.CreateMode
use zookeeper_cpp.Types.Version
use zookeeper_cpp.Zk.Adaptors.{error_code_from_raw}
use zookeeper_cpp.Zk.Promise.{value, exception}
use zookeeper_cpp.Multi.Commit.{
  Encoder, create_op_count, acl_piece_count, encode, commit, commit-refused,
}
use zookeeper_cpp.Multi.Deliver.{
  RawResult, deliver, created, was_set, end, AnswersAll, deliver-ok, deliver-failed,
}
use zookeeper_cpp.Multi.Encode.{DescribesAll, encode-Describes}
use zookeeper_cpp.Multi.Op
use zookeeper_cpp.Multi.Op.{
  Op, check_op, create_op, erase_op, set_op, CheckData, CreateData, EraseData, SetData, op_type,
  as_check, as_create, as_erase, as_set, as-op_type_iff,
}
use zookeeper_cpp.Multi.Part.{MultiResult}
use zookeeper_cpp.Examples.Sessions.{the_zoo, a_stat}

abbrev a_create : Op
a_create = create_op (record {
  path = codes "/a-";
  contents = codes "x";
  rules = open_unsafe;
  mode = CreateMode.sequential;
})

abbrev a_set : Op
a_set = set_op (record { path = codes "/b"; contents = codes "y"; check = Version.any })

abbrev a_txn : List Op
a_txn = a_create ∷ a_set ∷ []

encode-Describes_example :
    (s : Encoder) × (encode a_txn ≡ some s)
    × (length s.raw_ops ≡ length a_txn)
    × (length s.encoded_acls ≡ create_op_count a_txn)
    × (length s.acl_pieces ≡ acl_piece_count a_txn)
    × DescribesAll s 0 a_txn
encode-Describes_example = encode-Describes a_txn

as-op_type_iff_example :
    (((x : CheckData) × (as_check a_set ≡ ok x)) ↔ (op_type a_set ≡ Op.check))
    × (((x : CreateData) × (as_create a_set ≡ ok x)) ↔ (op_type a_set ≡ Op.create))
    × (((x : EraseData) × (as_erase a_set ≡ ok x)) ↔ (op_type a_set ≡ Op.erase))
    × (((x : SetData) × (as_set a_set ≡ ok x)) ↔ (op_type a_set ≡ Op.set))
as-op_type_iff_example = as-op_type_iff a_set

-- What the two operations are encoded as.
abbrev the_arrays : Encoder
the_arrays = (encode-Describes a_txn).0

arrays_are : encode a_txn ≡ some the_arrays
arrays_are = (encode-Describes a_txn).1

refused : error_code_from_raw the_zoo (neg 9) ≢ Code.ok
unfolding error_code_from_raw
refused e = cc e

commit-refused_example :
    commit the_zoo (neg 9) a_txn
    ≡ some (
      the_arrays,
      record {
        result = exception (throw_error (error_code_from_raw the_zoo (neg 9)));
        retrieved = true;
      },
      some future_error,
    )
commit-refused_example = commit-refused the_zoo (neg 9) a_txn the_arrays arrays_are refused

abbrev create_outcome : RawResult
create_outcome = record { err = pos 0; value = some (codes "/a-0000000001"); stat = none }

abbrev set_outcome : RawResult
set_outcome = record { err = pos 0; value = none; stat = some a_stat }

deliver-ok_example :
    (out : MultiResult) × (deliver Code.ok a_txn (create_outcome ∷ set_outcome ∷ [])
      ≡ some (value out))
    × AnswersAll a_txn (create_outcome ∷ set_outcome ∷ []) out
deliver-ok_example =
    deliver-ok a_txn (create_outcome ∷ set_outcome ∷ []) (
      created _ create_outcome (codes "/a-0000000001") refl (was_set _ set_outcome a_stat refl end))

abbrev failed_outcome : RawResult
failed_outcome = record { err = neg 101; value = none; stat = none }

deliver-failed_example :
    deliver Code.no_entry a_txn (create_outcome ∷ failed_outcome ∷ [])
    ≡ some (exception (make_transaction_failed Code.no_entry 1))
deliver-failed_example =
    deliver-failed Code.no_entry a_txn (create_outcome ∷ []) (failed_outcome ∷ []) (λ e. cc e)
      (refl, tt) ((λ e. cc e), tt)

throw_error-classes_example :
    (catches transport_error (throw_error Code.no_entry) ≡ is_transport_error Code.no_entry)
    × (catches invalid_arguments (throw_error Code.no_entry) ≡ is_invalid_arguments Code.no_entry)
    × (catches invalid_ensemble_state (throw_error Code.no_entry)
        ≡ is_invalid_ensemble_state Code.no_entry)
    × (catches invalid_connection_state (throw_error Code.no_entry)
        ≡ is_invalid_connection_state Code.no_entry)
    × (catches check_failed (throw_error Code.no_entry) ≡ is_check_failed Code.no_entry)
throw_error-classes_example = throw_error-classes Code.no_entry
