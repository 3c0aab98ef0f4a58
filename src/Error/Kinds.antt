-- ===== src/Error/Kinds.antt =====
-- The classification of the error codes (src/zk/error.hpp).
use zookeeper_cpp.Base.{Bool, ◌||◌, ◌==ℤ◌}
use zookeeper_cpp.Error.Code
use zookeeper_cpp.Error.Code.{ErrorCode}

unfoldable pub is_transport_error : ErrorCode → Bool
is_transport_error code = code ==ℤ Code.connection_loss || code ==ℤ Code.marshalling_error

unfoldable pub is_invalid_arguments : ErrorCode → Bool
is_invalid_arguments code = code ==ℤ Code.invalid_arguments || code ==ℤ Code.authentication_failed

unfoldable pub is_invalid_ensemble_state : ErrorCode → Bool
is_invalid_ensemble_state code =
    code ==ℤ Code.new_configuration_no_quorum
    || code ==ℤ Code.reconfiguration_disabled
    || code ==ℤ Code.reconfiguration_in_progress

unfoldable pub is_invalid_connection_state : ErrorCode → Bool
is_invalid_connection_state code =
    code ==ℤ Code.closed
    || code ==ℤ Code.ephemeral_on_local_session
    || code ==ℤ Code.not_authorized
    || code ==ℤ Code.read_only_connection
    || code ==ℤ Code.session_expired

unfoldable pub is_check_failed : ErrorCode → Bool
is_check_failed code =
    code ==ℤ Code.no_children_for_ephemerals
    || code ==ℤ Code.no_entry
    || code ==ℤ Code.entry_exists
    || code ==ℤ Code.not_empty
    || code ==ℤ Code.transaction_failed
    || code ==ℤ Code.version_mismatch
