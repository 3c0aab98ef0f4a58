-- ===== src/Zk/Request/Outcome.antt =====
-- What the callbacks make of the library's codes.
use zookeeper_cpp.Base.{ℤ, ◌≡◌, ◌↔◌, arith, ==ℤ_iff}
use zookeeper_cpp.Error.Code
use zookeeper_cpp.Zk.Adaptors.{error_code_from_raw}
use zookeeper_cpp.Zk.Zoo.{Zoo, IsDocumented}

-- Among the raw codes of the library, `ZOK` alone is translated to `error_code::ok`, if the library's
-- constants have their documented values.
error_code_from_raw-ok_iff :
    (zoo : Zoo) (raw : ℤ)
    → IsDocumented zoo
    → (error_code_from_raw zoo raw ≡ Code.ok) ↔ (raw ≡ Code.ok)
unfolding error_code_from_raw
error_code_from_raw-ok_iff zoo raw d = ground (
  arith,
  ==ℤ_iff raw zoo.operation_timeout,
  ==ℤ_iff raw zoo.invalid_callback,
  ==ℤ_iff raw zoo.invalid_acl,
  ==ℤ_iff raw zoo.session_moved,
)
