-- ===== src/Error/Classes.antt =====
-- What `throw_error` throws for a code: its code, and its class against the tests of the header.
use zookeeper_cpp.Base.{some, ◌≡◌, arith}
use zookeeper_cpp.Error.Code.{ErrorCode}
use zookeeper_cpp.Error.Exn.{
  transport_error, invalid_arguments, invalid_ensemble_state, invalid_connection_state,
  check_failed, catches, exn_code, throw_error,
}
use zookeeper_cpp.Error.Kinds.{
  is_transport_error, is_invalid_arguments, is_invalid_ensemble_state, is_invalid_connection_state,
  is_check_failed,
}

-- The exception thrown for a code carries that code, for listed and unlisted codes alike.
throw_error-code : (c : ErrorCode) → exn_code (throw_error c) ≡ some c
unfolding throw_error exn_code
throw_error-code c = ground arith

-- For every code, the five tests of the header hold exactly when a handler of the matching abstract
-- exception class takes what `throw_error` throws.
pub throw_error-classes :
    (c : ErrorCode)
    → (catches transport_error (throw_error c) ≡ is_transport_error c)
      × (catches invalid_arguments (throw_error c) ≡ is_invalid_arguments c)
      × (catches invalid_ensemble_state (throw_error c) ≡ is_invalid_ensemble_state c)
      × (catches invalid_connection_state (throw_error c) ≡ is_invalid_connection_state c)
      × (catches check_failed (throw_error c) ≡ is_check_failed c)
unfolding throw_error catches is_transport_error is_invalid_arguments is_invalid_ensemble_state
    is_invalid_connection_state is_check_failed
throw_error-classes c = (ground arith, ground arith, ground arith, ground arith, ground arith)
