-- ===== src/Error/Result.antt =====
-- A result, or the exception that was thrown.
use zookeeper_cpp.Base.{◌≡◌, refl}
use zookeeper_cpp.Error.Exn.{Exn}

pub data Result {ℓ} (T : Type ℓ) : Type ℓ where
  err : Exn → Result T
  ok : T → Result T

pub err_ok {ℓ} : {T : Type ℓ} {thrown : Exn} {t : T} → err thrown ≡ ok t → ⊥
err_ok same = cc

pub ok_inj {ℓ} : {T : Type ℓ} {t u : T} → ok t ≡ ok u → t ≡ u
ok_inj same = cc

infixl 5 ◌>>=◌ ◌>>◌
-- What follows a call: an exception skips it.
abbrev pub ◌>>=◌ {ℓ κ} : {T : Type ℓ} {U : Type κ} → Result T → (T → Result U) → Result U
err thrown >>= next = err thrown
ok t >>= next = next t

abbrev pub ◌>>◌ {κ} : {U : Type κ} → Result (Unit {0}) → Result U → Result U
first >> next = first >>= λ ignored. next

-- A sequence that ends well began well.
pub >>=-eq-ok {ℓ κ} :
    {T : Type ℓ} {U : Type κ} (first : Result T) (next : T → Result U) {u : U}
    → (first >>= next) ≡ ok u
    → (t : T) × (first ≡ ok t) × (next t ≡ ok u)
>>=-eq-ok (err thrown) next e = cc
>>=-eq-ok (ok t) next e = (t, refl, e)
