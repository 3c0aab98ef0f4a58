-- ===== src/Base/Lists.antt =====
-- Lists measured and indexed by native numbers, under the library's names, and predicates on lists.
use Prim.Native.Nat.{ℕ, zero, suc, ◌+◌, ◌<◌}
use mathlib.Core.Path.{◌≡◌, refl, ap}
use mathlib.Core.Logic.{◌≢◌, ◌⊎◌, inl, inr}
use mathlib.Core.List.{List, [], ◌∷◌, ◌++◌}
use mathlib.Core.Option.{Option, none, some}
use native.Mathlib.Omega.{arith}
use zookeeper_cpp.Base.Tests.{some_inj}

module _ {ℓ} {A : Type ℓ} where
  abbrev pub length : List A → ℕ
  length [] = 0
  length (x ∷ xs) = suc (length xs)

  abbrev pub get_elem? : List A → ℕ → Option A
  get_elem? [] i = none
  get_elem? (x ∷ xs) zero = some x
  get_elem? (x ∷ xs) (suc i) = get_elem? xs i

  -- A write out of bounds changes nothing.
  abbrev pub set : List A → ℕ → A → List A
  set [] i v = []
  set (x ∷ xs) zero v = v ∷ xs
  set (x ∷ xs) (suc i) v = x ∷ set xs i v

  abbrev pub drop : ℕ → List A → List A
  drop zero xs = xs
  drop (suc n) [] = []
  drop (suc n) (x ∷ xs) = drop n xs

  -- A predicate by recursion computes to tuples, which the tactics read and build.
  abbrev pub All {κ} : (A → Type κ) → List A → Type κ
  All P [] = Unit
  All P (x ∷ xs) = P x × All P xs

module _ {ℓ} {A : Type ℓ} where
  pub length-append : (xs ys : List A) → length (xs ++ ys) ≡ length xs + length ys
  length-append [] ys = omega arith
  length-append (x ∷ xs) ys = omega (arith, length-append xs ys)

  pub length-set : (xs : List A) (i : ℕ) (v : A) → length (set xs i v) ≡ length xs
  length-set [] i v = refl
  length-set (x ∷ xs) zero v = refl
  length-set (x ∷ xs) (suc i) v = ap suc (length-set xs i v)

  pub get_elem?-set_self :
      (xs : List A) (i : ℕ) (v : A) → i < length xs → get_elem? (set xs i v) i ≡ some v
  get_elem?-set_self [] i v h = elim h [ ]
  get_elem?-set_self (x ∷ xs) zero v h = refl
  get_elem?-set_self (x ∷ xs) (suc i) v h = get_elem?-set_self xs i v (omega arith)

  pub get_elem?-set_ne :
      (xs : List A) {i j : ℕ} (v : A) → i ≢ j → get_elem? (set xs i v) j ≡ get_elem? xs j
  get_elem?-set_ne [] v h = refl
  get_elem?-set_ne (x ∷ xs) {i = zero} {j = zero} v h = absurd (h refl)
  get_elem?-set_ne (x ∷ xs) {i = zero} {j = suc j} v h = refl
  get_elem?-set_ne (x ∷ xs) {i = suc i} {j = zero} v h = refl
  get_elem?-set_ne (x ∷ xs) {i = suc i} {j = suc j} v h = get_elem?-set_ne xs v (λ e. h (ap suc e))

  pub All-append {κ} : (P : A → Type κ) (xs ys : List A) → All P xs → All P ys → All P (xs ++ ys)
  All-append P [] ys hx hy = hy
  All-append P (x ∷ xs) ys hx hy = (hx.0, All-append P xs ys hx.1 hy)

  pub get_elem?-lt : (xs : List A) (i : ℕ) {a : A} → get_elem? xs i ≡ some a → i < length xs
  get_elem?-lt [] i e = absurd (cc)
  get_elem?-lt (x ∷ xs) zero e = omega arith
  get_elem?-lt (x ∷ xs) (suc i) e = omega (arith, get_elem?-lt xs i e)

  pub get_elem?-concat_self : (xs : List A) (a : A) → get_elem? (xs ++ a ∷ []) (length xs) ≡ some a
  get_elem?-concat_self [] a = refl
  get_elem?-concat_self (x ∷ xs) a = get_elem?-concat_self xs a

  pub get_elem?-concat_ne :
      (xs : List A) (a : A) (i : ℕ) → i ≢ length xs → get_elem? (xs ++ a ∷ []) i ≡ get_elem? xs i
  get_elem?-concat_ne [] a zero ne = absurd (ne refl)
  get_elem?-concat_ne [] a (suc i) ne = refl
  get_elem?-concat_ne (x ∷ xs) a zero ne = refl
  get_elem?-concat_ne (x ∷ xs) a (suc i) ne = get_elem?-concat_ne xs a i (λ e. ne (ap suc e))

  -- An element that is appended is the last one, or was there.
  pub get_elem?-concat_cases :
      (xs : List A) (a : A) (i : ℕ) {b : A}
      → get_elem? (xs ++ a ∷ []) i ≡ some b
      → (i ≡ length xs) × (a ≡ b) ⊎ (get_elem? xs i ≡ some b)
  get_elem?-concat_cases [] a zero e = inl (refl, some_inj e)
  get_elem?-concat_cases [] a (suc i) e = inr e
  get_elem?-concat_cases (x ∷ xs) a zero e = inr e
  get_elem?-concat_cases (x ∷ xs) a (suc i) e = elim (get_elem?-concat_cases xs a i e) [
    | inl (f, g) ↦ inl (ap suc f, g)
    | inr f ↦ inr f
  ]

  -- An element after a write is the one written, or was there.
  pub get_elem?-set_cases :
      (xs : List A) (i j : ℕ) (v : A) {b : A}
      → get_elem? (set xs i v) j ≡ some b
      → (j ≡ i) × (v ≡ b) ⊎ (j ≢ i) × (get_elem? xs j ≡ some b)
  get_elem?-set_cases [] i j v e = cc e
  get_elem?-set_cases (x ∷ xs) zero zero v e = inl (refl, some_inj e)
  get_elem?-set_cases (x ∷ xs) zero (suc j) v e = inr (λ h. omega arith, e)
  get_elem?-set_cases (x ∷ xs) (suc i) zero v e = inr (λ h. omega arith, e)
  get_elem?-set_cases (x ∷ xs) (suc i) (suc j) v e = elim (get_elem?-set_cases xs i j v e) [
    | inl (f, g) ↦ inl (ap suc f, g)
    | inr (f, g) ↦ inr ((λ h. f (omega arith)), g)
  ]

  pub get_elem?-All {κ} :
      {P : A → Type κ} (xs : List A) → ((i : ℕ) (a : A) → get_elem? xs i ≡ some a → P a) → All P xs
  get_elem?-All [] f = tt
  get_elem?-All (x ∷ xs) f = (f 0 x refl, get_elem?-All xs (λ i a e. f (suc i) a e))
