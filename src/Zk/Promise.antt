-- ===== src/Zk/Promise.antt =====
-- `std::promise` and the shared state that its future reads (src/zk/future.hpp). Setting a promise that
-- has a result already, and taking its future a second time, throw `std::future_error`.
use zookeeper_cpp.Base.{Bool, true, false, Option, none, some}
use zookeeper_cpp.Error.Exn.{Exn}

pub data Promise {ℓ} (A : Type ℓ) : Type ℓ where
  unset : Promise A
  value : A → Promise A
  exception : Exn → Promise A

-- `set_value` or `set_exception` with `r`. The result `none` is `std::future_error`.
abbrev pub satisfy {ℓ} : {A : Type ℓ} → Promise A → Promise A → Option (Promise A)
satisfy unset r = some r
satisfy (value a) r = none
satisfy (exception e) r = none

abbrev pub is_unset {ℓ} : {A : Type ℓ} → Promise A → Bool
is_unset unset = true
is_unset (value a) = false
is_unset (exception e) = false
