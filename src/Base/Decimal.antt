-- ===== src/Base/Decimal.antt =====
-- Decimal numbers as the standard library prints and reads them: `std::to_string`, `operator<<` of an
-- integer, `std::isspace`, `std::atoi` and `std::atol`. A value that the C type cannot hold, for which
-- C leaves `atol` undefined, is read without a bound; the callers' casts are written out.
use Prim.Native.Nat.{ℕ, zero, suc, ◌+◌, ◌-◌, ◌*◌, ◌/◌, ◌%◌, ◌^◌, ◌<◌}
use mathlib.Core.Bool.{Bool, true, ◌&&◌, ◌||◌}
use mathlib.Core.List.{[], ◌∷◌, ◌++◌, concat-ne-nil}
use mathlib.Core.Logic.{◌≢◌, inl, inr}
use mathlib.Core.Path.{◌≡◌, refl, ap, ◌∙◌}
use native.Mathlib.Omega.{arith}
use zookeeper_cpp.Base.Int.{ℤ, pos, negsuc}
use zookeeper_cpp.Base.Lists.{All, All-append}
use zookeeper_cpp.Base.Tests.{◌==◌, leb, ltb, if◌then◌else◌, Bool-cases}
use zookeeper_cpp.Base.Text.{Bytes}

abbrev pub is_space : ℕ → Bool
is_space c = c == 32 || (leb 9 c && leb c 13)

abbrev pub is_digit : ℕ → Bool
is_digit c = leb b'0' c && leb c b'9'

decimal_fuel : ℕ → ℕ → Bytes
decimal_fuel zero n = []
decimal_fuel (suc f) n =
    let rest = decimal_fuel f (n / 10) in
    if ltb n 10 then (48 + n) ∷ [] else rest ++ (48 + n % 10) ∷ []

-- `std::to_string` of an unsigned number.
unfoldable pub decimal : ℕ → Bytes
unfolding decimal_fuel
decimal n = decimal_fuel (suc n) n

-- `std::to_string` and `operator<<` of a signed number.
unfoldable pub show_ℤ : ℤ → Bytes
unfolding decimal
show_ℤ (pos n) = decimal n
show_ℤ (negsuc n) = b'-' ∷ decimal (suc n)

unfoldable pub digits_value : ℕ → Bytes → ℕ
digits_value acc [] = acc
digits_value acc (c ∷ cs) =
    let rest = digits_value (acc * 10 + (c - 48)) cs in if is_digit c then rest else acc

minus : ℕ → ℤ
minus zero = pos 0
minus (suc n) = negsuc n

-- The optional sign of `strtol`, and the digits behind it.
signed : Bytes → ℤ
unfolding digits_value minus
signed [] = pos 0
signed (c ∷ cs) =
    if c == b'-'
    then minus (digits_value 0 cs)
    else if c == b'+'
    then pos (digits_value 0 cs)
    else pos (digits_value 0 (c ∷ cs))

-- `std::atol`, and `std::atoi` before its cast.
unfoldable pub atol : Bytes → ℤ
unfolding signed
atol [] = signed []
atol (c ∷ cs) = let rest = atol cs in if is_space c then rest else signed (c ∷ cs)

-- The cast of a signed number to an unsigned type of `w` bits.
unfoldable pub to_word : ℕ → ℤ → ℕ
to_word w (pos n) = n % 2 ^ w
to_word w (negsuc n) = 2 ^ w - 1 - n % 2 ^ w

abbrev pub IsDigits : Bytes → Type 0
IsDigits = All (λ c. is_digit c ≡ true)

digits_value-append :
    (xs ys : Bytes) (a : ℕ)
    → IsDigits xs
    → digits_value a (xs ++ ys) ≡ digits_value (digits_value a xs) ys
unfolding digits_value
digits_value-append [] ys a h = refl
digits_value-append (x ∷ xs) ys a h = rw h.0 (digits_value-append xs ys (a * 10 + (x - 48)) h.1)

decimal_fuel-IsDigits : (f n : ℕ) → IsDigits (decimal_fuel f n)
unfolding decimal_fuel
decimal_fuel-IsDigits zero n = tt
decimal_fuel-IsDigits (suc f) n = elim (Bool-cases (ltb n 10)) [
  | inl small ↦ rw small (ground arith, tt)
  | inr big ↦ rw big (
      All-append (λ c. is_digit c ≡ true) (decimal_fuel f (n / 10)) _
        (decimal_fuel-IsDigits f (n / 10)) (ground arith, tt))
]

pub decimal-IsDigits : (n : ℕ) → IsDigits (decimal n)
unfolding decimal
decimal-IsDigits n = decimal_fuel-IsDigits (suc n) n

one_digit : (d : ℕ) → d < 10 → (a : ℕ) → digits_value a ((48 + d) ∷ []) ≡ a * 10 + d
unfolding digits_value
one_digit d h a = ground arith

digits_value-decimal_fuel : (f n : ℕ) → n < f → digits_value 0 (decimal_fuel f n) ≡ n
unfolding decimal_fuel
digits_value-decimal_fuel zero n h = elim h [ ]
digits_value-decimal_fuel (suc f) n h = elim (Bool-cases (ltb n 10)) [
  | inl small ↦ rw small (one_digit n (ground arith) 0 ∙ omega arith)
  | inr big ↦ rw big (
      digits_value-append (decimal_fuel f (n / 10)) _ 0 (decimal_fuel-IsDigits f (n / 10))
      ∙ ap (λ a. digits_value a ((48 + n % 10) ∷ []))
          (digits_value-decimal_fuel f (n / 10) (ground arith))
      ∙ one_digit (n % 10) (omega arith) (n / 10)
      ∙ omega arith)
]

pub digits_value-decimal : (n : ℕ) → digits_value 0 (decimal n) ≡ n
unfolding decimal
digits_value-decimal n = digits_value-decimal_fuel (suc n) n (omega arith)

decimal_fuel-ne-nil : (f n : ℕ) → decimal_fuel (suc f) n ≢ []
unfolding decimal_fuel
decimal_fuel-ne-nil f n = ground (arith, concat-ne-nil (48 + n % 10) (decimal_fuel f (n / 10)))

pub decimal-ne-nil : (n : ℕ) → decimal n ≢ []
unfolding decimal
decimal-ne-nil n = decimal_fuel-ne-nil n n

signed_digit :
    (c : ℕ) (cs : Bytes) → is_digit c ≡ true → atol (c ∷ cs) ≡ pos (digits_value 0 (c ∷ cs))
unfolding atol
signed_digit c cs h = ground arith

atol-IsDigits : (d : Bytes) → d ≢ [] → IsDigits d → atol d ≡ pos (digits_value 0 d)
atol-IsDigits [] ne h = absurd (ne refl)
atol-IsDigits (c ∷ cs) ne h = signed_digit c cs h.0

-- Reading back what was printed.
pub atol-decimal : (n : ℕ) → atol (decimal n) ≡ pos n
atol-decimal n =
    atol-IsDigits (decimal n) (decimal-ne-nil n) (decimal-IsDigits n)
    ∙ ap pos (digits_value-decimal n)

pub atol-show_ℤ : (z : ℤ) → atol (show_ℤ z) ≡ z
unfolding show_ℤ
atol-show_ℤ (pos n) = atol-decimal n
atol-show_ℤ (negsuc n) = unfold atol minus in rw (digits_value-decimal (suc n))
