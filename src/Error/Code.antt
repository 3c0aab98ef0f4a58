-- ===== src/Error/Code.antt =====
-- The enumerators of `error_code` (src/zk/error.hpp). Any `int` may be cast to the enumeration, so a
-- code is an integer.
use zookeeper_cpp.Base.{ℤ, pos, neg}

abbrev pub ErrorCode : Type 0
ErrorCode = ℤ

abbrev pub ok : ErrorCode
ok = pos 0

abbrev pub connection_loss : ErrorCode
connection_loss = neg 4

abbrev pub marshalling_error : ErrorCode
marshalling_error = neg 5

abbrev pub not_implemented : ErrorCode
not_implemented = neg 6

abbrev pub invalid_arguments : ErrorCode
invalid_arguments = neg 8

abbrev pub new_configuration_no_quorum : ErrorCode
new_configuration_no_quorum = neg 13

abbrev pub reconfiguration_in_progress : ErrorCode
reconfiguration_in_progress = neg 14

abbrev pub no_entry : ErrorCode
no_entry = neg 101

abbrev pub not_authorized : ErrorCode
not_authorized = neg 102

abbrev pub version_mismatch : ErrorCode
version_mismatch = neg 103

abbrev pub no_children_for_ephemerals : ErrorCode
no_children_for_ephemerals = neg 108

abbrev pub entry_exists : ErrorCode
entry_exists = neg 110

abbrev pub not_empty : ErrorCode
not_empty = neg 111

abbrev pub session_expired : ErrorCode
session_expired = neg 112

abbrev pub authentication_failed : ErrorCode
authentication_failed = neg 115

abbrev pub closed : ErrorCode
closed = neg 116

abbrev pub read_only_connection : ErrorCode
read_only_connection = neg 119

abbrev pub ephemeral_on_local_session : ErrorCode
ephemeral_on_local_session = neg 120

abbrev pub reconfiguration_disabled : ErrorCode
reconfiguration_disabled = neg 123

abbrev pub transaction_failed : ErrorCode
transaction_failed = neg 199
