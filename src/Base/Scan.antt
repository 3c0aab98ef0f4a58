-- ===== src/Base/Scan.antt =====
-- Scanning texts: the longest prefix of a kind of byte (`std::find` and the classes of a regular
-- expression), and the pieces between two delimiters put together again.
use mathlib.Core.Bool.{Bool, true, false, not}
use mathlib.Core.List.{List, [], ◌∷◌, ◌++◌}
use mathlib.Core.Logic.{inl, inr}
use mathlib.Core.Path.{◌≡◌, refl, ap}
use Prim.Native.Nat.{ℕ, ◌≤◌}
use native.Mathlib.Omega.{arith}
use zookeeper_cpp.Base.Lists.{All, length}
use zookeeper_cpp.Base.Tests.{◌==◌, if◌then◌else◌, Bool-cases}
use zookeeper_cpp.Base.Text.{Bytes}

abbrev pub take_while : (ℕ → Bool) → Bytes → Bytes
take_while p [] = []
take_while p (c ∷ cs) = if p c then c ∷ take_while p cs else []

abbrev pub drop_while : (ℕ → Bool) → Bytes → Bytes
drop_while p [] = []
drop_while p (c ∷ cs) = if p c then drop_while p cs else c ∷ cs

abbrev pub IsAll : (ℕ → Bool) → Bytes → Type 0
IsAll p = All (λ c. p c ≡ true)

-- Every byte but one.
abbrev pub except : ℕ → ℕ → Bool
except d c = not (c == d)

-- Whether every byte passes the test.
abbrev pub all_of : (ℕ → Bool) → Bytes → Bool
all_of p [] = true
all_of p (c ∷ cs) = if p c then all_of p cs else false

pub IsAll-mono :
    {p q : ℕ → Bool} (xs : Bytes) → ((c : ℕ) → p c ≡ true → q c ≡ true) → IsAll p xs → IsAll q xs
IsAll-mono [] f h = tt
IsAll-mono (c ∷ cs) f h = (f c h.0, IsAll-mono cs f h.1)

pub IsAll-intro : (p : ℕ → Bool) (xs : Bytes) → all_of p xs ≡ true → IsAll p xs
IsAll-intro p [] h = tt
IsAll-intro p (c ∷ cs) h = ground (arith, IsAll-intro p cs)

pub IsAll→all_of : (p : ℕ → Bool) (xs : Bytes) → IsAll p xs → all_of p xs ≡ true
IsAll→all_of p [] h = refl
IsAll→all_of p (c ∷ cs) h = rw h.0 (IsAll→all_of p cs h.1)

-- Where the bytes of `p` stop: the end, or a byte that is not of `p`.
abbrev pub Stops : (ℕ → Bool) → Bytes → Type 0
Stops p [] = Unit
Stops p (c ∷ cs) = p c ≡ false

pub take_while-append :
    (p : ℕ → Bool) (xs rest : Bytes) → IsAll p xs → Stops p rest → take_while p (xs ++ rest) ≡ xs
take_while-append p [] [] h s = refl
take_while-append p [] (c ∷ rest) h s = rw s
take_while-append p (x ∷ xs) rest h s = rw h.0 (ap (◌∷◌ x) (take_while-append p xs rest h.1 s))

pub drop_while-append :
    (p : ℕ → Bool) (xs rest : Bytes) → IsAll p xs → Stops p rest → drop_while p (xs ++ rest) ≡ rest
drop_while-append p [] [] h s = refl
drop_while-append p [] (c ∷ rest) h s = rw s
drop_while-append p (x ∷ xs) rest h s = rw h.0 (drop_while-append p xs rest h.1 s)

pub take_while-eq_self : (p : ℕ → Bool) (xs : Bytes) → IsAll p xs → take_while p xs ≡ xs
take_while-eq_self p [] h = refl
take_while-eq_self p (x ∷ xs) h = rw h.0 (ap (◌∷◌ x) (take_while-eq_self p xs h.1))

pub drop_while-eq-nil : (p : ℕ → Bool) (xs : Bytes) → IsAll p xs → drop_while p xs ≡ []
drop_while-eq-nil p [] h = refl
drop_while-eq-nil p (x ∷ xs) h = rw h.0 (drop_while-eq-nil p xs h.1)

pub take_while-IsAll : (p : ℕ → Bool) (s : Bytes) → IsAll p (take_while p s)
take_while-IsAll p [] = tt
take_while-IsAll p (c ∷ cs) = elim (Bool-cases (p c)) [
  | inl h ↦ rw h (h, take_while-IsAll p cs)
  | inr h ↦ rw h tt
]

pub drop_while-Stops : (p : ℕ → Bool) (s : Bytes) → Stops p (drop_while p s)
drop_while-Stops p [] = tt
drop_while-Stops p (c ∷ cs) = elim (Bool-cases (p c)) [
  | inl h ↦ rw h (drop_while-Stops p cs)
  | inr h ↦ rw h h
]

pub take-append-drop_while : (p : ℕ → Bool) (s : Bytes) → take_while p s ++ drop_while p s ≡ s
take-append-drop_while p [] = refl
take-append-drop_while p (c ∷ cs) = elim (Bool-cases (p c)) [
  | inl h ↦ rw h (ap (◌∷◌ c) (take-append-drop_while p cs))
  | inr h ↦ rw h
]

pub length-drop_while-le : (p : ℕ → Bool) (s : Bytes) → length (drop_while p s) ≤ length s
length-drop_while-le p [] = omega arith
length-drop_while-le p (c ∷ cs) = ground (arith, length-drop_while-le p cs)

-- The texts with the separator between each two of them, as the loops with a `first` flag print them.
abbrev pub join_rest : Bytes → List Bytes → Bytes
join_rest sep [] = []
join_rest sep (x ∷ xs) = sep ++ (x ++ join_rest sep xs)

unfoldable pub join : Bytes → List Bytes → Bytes
join sep [] = []
join sep (x ∷ xs) = x ++ join_rest sep xs
