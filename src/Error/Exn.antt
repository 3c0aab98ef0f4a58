-- ===== src/Error/Exn.antt =====
-- The exception classes of src/zk/error.hpp and src/zk/error.cpp, and those of the standard library
-- that the program throws.
use zookeeper_cpp.Base.{
  ℕ, zero, suc, Bool, true, false, ◌++◌, [], Option, none, some, ◌==◌, ◌==ℤ◌, if◌then◌else◌, Bytes,
  codes, decimal, show_ℤ,
}
use zookeeper_cpp.Error.Code
use zookeeper_cpp.Error.Code.{ErrorCode}

-- Each class of the hierarchy below `error`.
pub data ErrorClass : Type 0 where
  error transport_error connection_loss marshalling_error not_implemented : ErrorClass
  invalid_arguments authentication_failed invalid_ensemble_state : ErrorClass
  new_configuration_no_quorum reconfiguration_in_progress reconfiguration_disabled : ErrorClass
  invalid_connection_state session_expired not_authorized closed : ErrorClass
  ephemeral_on_local_session read_only_connection check_failed no_entry entry_exists : ErrorClass
  not_empty version_mismatch no_children_for_ephemerals transaction_failed : ErrorClass

-- The class that each one derives from by its declaration.
pub base : ErrorClass → Option ErrorClass
base error = none
base transport_error = some error
base connection_loss = some transport_error
base marshalling_error = some transport_error
base not_implemented = some error
base invalid_arguments = some error
base authentication_failed = some invalid_arguments
base invalid_ensemble_state = some error
base new_configuration_no_quorum = some invalid_ensemble_state
base reconfiguration_in_progress = some invalid_ensemble_state
base reconfiguration_disabled = some invalid_ensemble_state
base invalid_connection_state = some error
base session_expired = some invalid_connection_state
base not_authorized = some invalid_connection_state
base closed = some invalid_connection_state
base ephemeral_on_local_session = some invalid_connection_state
base read_only_connection = some invalid_connection_state
base check_failed = some error
base no_entry = some check_failed
base entry_exists = some check_failed
base not_empty = some check_failed
base version_mismatch = some check_failed
base no_children_for_ephemerals = some check_failed
base transaction_failed = some check_failed

class_id : ErrorClass → ℕ
class_id error = 0
class_id transport_error = 1
class_id connection_loss = 2
class_id marshalling_error = 3
class_id not_implemented = 4
class_id invalid_arguments = 5
class_id authentication_failed = 6
class_id invalid_ensemble_state = 7
class_id new_configuration_no_quorum = 8
class_id reconfiguration_in_progress = 9
class_id reconfiguration_disabled = 10
class_id invalid_connection_state = 11
class_id session_expired = 12
class_id not_authorized = 13
class_id closed = 14
class_id ephemeral_on_local_session = 15
class_id read_only_connection = 16
class_id check_failed = 17
class_id no_entry = 18
class_id entry_exists = 19
class_id not_empty = 20
class_id version_mismatch = 21
class_id no_children_for_ephemerals = 22
class_id transaction_failed = 23

derives_fuel : ℕ → ErrorClass → ErrorClass → Bool
unfolding base class_id
derives_fuel zero a b = false
derives_fuel (suc f) a b = elim (class_id a == class_id b) [
  | true ↦ true
  | false ↦ elim (base a) [ none ↦ false | some p ↦ derives_fuel f p b ]
]

-- Whether a `catch` of class `b` takes an exception of class `a`. No chain has more than three links.
unfoldable pub derives : ErrorClass → ErrorClass → Bool
unfolding derives_fuel
derives = derives_fuel 4

-- The values of `errno` that the program tests for, and the others.
pub data Errno : Type 0 where
  eagain ewouldblock eintr epipe esrch eio enoent : Errno
  other_errno : ℕ → Errno

-- An exception: of the hierarchy, with its code and message; `transaction_failed` with its two
-- further fields; or of the standard library.
pub data Exn : Type 0 where
  zk : ErrorClass → ErrorCode → Bytes → Exn
  zk_transaction : Bytes → ErrorCode → ℕ → Exn
  invalid_argument runtime_error logic_error out_of_range : Bytes → Exn
  system_error : Errno → Bytes → Exn
  pipe_closed bad_optional_access future_error : Exn

-- `error::code`.
unfoldable pub exn_code : Exn → Option ErrorCode
exn_code (zk c code m) = some code
exn_code (zk_transaction m cause idx) = some Code.transaction_failed
exn_code _ = none

-- Whether `catch (const k&)` takes the exception.
unfoldable pub catches : ErrorClass → Exn → Bool
unfolding derives
catches k (zk c code m) = derives c k
catches k (zk_transaction m cause idx) = derives transaction_failed k
catches k _ = false

-- `operator<<` of a code; `to_string` is the same text.
unfoldable pub code_to_string : ErrorCode → Bytes
code_to_string c =
    if c ==ℤ Code.ok then codes "ok" else codes "error_code(" ++ show_ℤ c ++ codes ")"

unfoldable pub format_error : ErrorCode → Bytes → Bytes
unfolding code_to_string
format_error code [] = code_to_string code
format_error code d = code_to_string code ++ codes ": " ++ d

-- The constructor of a class that passes its own code and an empty description on.
unfoldable pub plain : ErrorClass → ErrorCode → Exn
unfolding format_error
plain c code = zk c code (format_error code [])

unfoldable pub make_not_implemented : Bytes → Exn
unfolding format_error
make_not_implemented op_name =
    zk not_implemented Code.not_implemented
      (format_error Code.not_implemented (codes "Operation not implemented: " ++ op_name))

unfoldable pub make_transaction_failed : ErrorCode → ℕ → Exn
unfolding format_error
make_transaction_failed cause idx =
    zk_transaction
      (format_error Code.transaction_failed (
        codes "Could not commit transaction due to "
        ++ code_to_string cause
        ++ codes " on operation "
        ++ decimal idx))
      cause idx

-- `throw_error`: the exception thrown. `get_exception_ptr_of` catches it, so it is that value too.
unfoldable pub throw_error : ErrorCode → Exn
unfolding plain make_not_implemented make_transaction_failed
throw_error code =
    if code ==ℤ Code.connection_loss
    then plain connection_loss Code.connection_loss
    else if code ==ℤ Code.marshalling_error
    then plain marshalling_error Code.marshalling_error
    else if code ==ℤ Code.not_implemented
    then make_not_implemented (codes "unspecified")
    else if code ==ℤ Code.invalid_arguments
    then plain invalid_arguments Code.invalid_arguments
    else if code ==ℤ Code.new_configuration_no_quorum
    then plain new_configuration_no_quorum Code.new_configuration_no_quorum
    else if code ==ℤ Code.reconfiguration_in_progress
    then plain reconfiguration_in_progress Code.reconfiguration_in_progress
    else if code ==ℤ Code.no_entry
    then plain no_entry Code.no_entry
    else if code ==ℤ Code.not_authorized
    then plain not_authorized Code.not_authorized
    else if code ==ℤ Code.version_mismatch
    then plain version_mismatch Code.version_mismatch
    else if code ==ℤ Code.no_children_for_ephemerals
    then plain no_children_for_ephemerals Code.no_children_for_ephemerals
    else if code ==ℤ Code.entry_exists
    then plain entry_exists Code.entry_exists
    else if code ==ℤ Code.not_empty
    then plain not_empty Code.not_empty
    else if code ==ℤ Code.session_expired
    then plain session_expired Code.session_expired
    else if code ==ℤ Code.authentication_failed
    then plain authentication_failed Code.authentication_failed
    else if code ==ℤ Code.closed
    then plain closed Code.closed
    else if code ==ℤ Code.read_only_connection
    then plain read_only_connection Code.read_only_connection
    else if code ==ℤ Code.ephemeral_on_local_session
    then plain ephemeral_on_local_session Code.ephemeral_on_local_session
    else if code ==ℤ Code.reconfiguration_disabled
    then plain reconfiguration_disabled Code.reconfiguration_disabled
    else if code ==ℤ Code.transaction_failed
    then make_transaction_failed Code.transaction_failed 0
    else zk error code (format_error code (codes "unknown"))
