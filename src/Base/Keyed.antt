-- ===== src/Base/Keyed.antt =====
-- Association lists by numbers, and the choice of one entry of a list.
use mathlib.Core.List.{List, [], ◌∷◌}
use mathlib.Core.Logic.{◌≢◌, ◌⊎◌, inl, inr}
use mathlib.Core.Option.{Option, none, some}
use mathlib.Core.Path.{◌≡◌, refl, subst}
use Prim.Native.Nat.{ℕ}
use zookeeper_cpp.Base.Tests.{◌==◌, ==_iff, Bool-cases, if◌then◌else◌}

-- One entry of a list, and the others.
pub data Picks {ℓ} {A : Type ℓ} (x : A) : List A → List A → Type ℓ where
  here : {xs : List A} → Picks x (x ∷ xs) xs
  there : {y : A} {xs ys : List A} → Picks x xs ys → Picks x (y ∷ xs) (y ∷ ys)

module _ {ℓ} {A : Type ℓ} where
  abbrev pub HasKey : ℕ → List (ℕ × A) → Type 0
  HasKey i [] = ⊥
  HasKey i ((j, a) ∷ ps) = (i ≡ j) ⊎ HasKey i ps

  -- No two entries have the same key.
  abbrev pub Distinct : List (ℕ × A) → Type 0
  Distinct [] = Unit
  Distinct ((j, a) ∷ ps) = (¬ HasKey j ps) × Distinct ps

  pub Picks-HasKey : {i : ℕ} {a : A} {ps rest : List (ℕ × A)} → Picks (i, a) ps rest → HasKey i ps
  Picks-HasKey here = inl refl
  Picks-HasKey (there p) = inr (Picks-HasKey p)

  pub Picks-rest :
      {i : ℕ} {a : A} {ps rest : List (ℕ × A)}
      → Picks (i, a) ps rest
      → (j : ℕ) → HasKey j rest
      → HasKey j ps
  Picks-rest here j w = inr w
  Picks-rest (there p) j (inl e) = inl e
  Picks-rest (there p) j (inr w) = inr (Picks-rest p j w)

  pub Picks-other :
      {i : ℕ} {a : A} {ps rest : List (ℕ × A)}
      → Picks (i, a) ps rest
      → (j : ℕ) → j ≢ i
      → HasKey j ps
      → HasKey j rest
  Picks-other here j ne (inl e) = absurd (ne e)
  Picks-other here j ne (inr w) = w
  Picks-other (there p) j ne (inl e) = inl e
  Picks-other (there p) j ne (inr w) = inr (Picks-other p j ne w)

  pub Picks-gone :
      {i : ℕ} {a : A} {ps rest : List (ℕ × A)}
      → Picks (i, a) ps rest
      → Distinct ps
      → ¬ HasKey i rest
  Picks-gone here d w = d.0 w
  Picks-gone (there {xs = xs} p) d (inl e) = d.0 (subst (λ j. HasKey j xs) e (Picks-HasKey p))
  Picks-gone (there p) d (inr w) = Picks-gone p d.1 w

  pub Picks-Distinct :
      {i : ℕ} {a : A} {ps rest : List (ℕ × A)} → Picks (i, a) ps rest → Distinct ps → Distinct rest
  Picks-Distinct here d = d.1
  Picks-Distinct (there p) d = (λ w. d.0 (Picks-rest p _ w), Picks-Distinct p d.1)

  keep_entry : ℕ × A → Option (A × List (ℕ × A)) → Option (A × List (ℕ × A))
  keep_entry e none = none
  keep_entry e (some (a, rest)) = some (a, e ∷ rest)

  -- `find` and `extract` of a map: the value at a key, and the map without the entry.
  unfoldable pub extract : ℕ → List (ℕ × A) → Option (A × List (ℕ × A))
  unfolding keep_entry
  extract i [] = none
  extract i ((j, a) ∷ ps) = if i == j then some (a, ps) else keep_entry (j, a) (extract i ps)

  -- What `extract` takes out is an entry with that key.
  pub extract-cases :
      (i : ℕ) (ps : List (ℕ × A))
      → ((extract i ps ≡ none) × ¬ HasKey i ps)
        ⊎ ((a : A) × (rest : List (ℕ × A)) × (extract i ps ≡ some (a, rest)) × Picks (i, a) ps rest)
  unfolding extract
  extract-cases i [] = inl (refl, λ w. w)
  extract-cases i ((j, a) ∷ ps) = elim (Bool-cases (i == j)) [
    | inl same ↦ inr (a, ps, rw same, rw ((==_iff i j).0 same) here)
    | inr differ ↦ elim (extract-cases i ps) [
      | inl (e, no_key) ↦
          inl (
            rw (differ, e),
            λ h. elim h [ inl s ↦ cc (differ, (==_iff i j).1 s) | inr w ↦ no_key w ],
          )
      | inr (b, rest, e, p) ↦ inr (b, (j, a) ∷ rest, rw (differ, e), there p)
    ]
  ]
