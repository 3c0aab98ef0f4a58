-- ===== src/Server/Ordered/Append.antt =====
-- A key above all others goes to the end of a map.
use zookeeper_cpp.Base.{
  ℕ, ◌≤◌, ◌<◌, false, List, [], ◌∷◌, ◌++◌, none, ◌≡◌, refl, ltb, lt→ltb, arith,
}
use zookeeper_cpp.Server.Ordered.{insert, lookup}

abbrev pub IsAbove {ℓ} : {A : Type ℓ} → ℕ → List (ℕ × A) → Type 0
IsAbove k [] = Unit
IsAbove k ((l, b) ∷ ps) = (l < k) × IsAbove k ps

ltb-false : (a b : ℕ) → b < a → ltb a b ≡ false
ltb-false a b h = ground arith

module _ {ℓ} {A : Type ℓ} where
  pub insert-append :
      (k : ℕ) (a : A) (ps : List (ℕ × A)) → IsAbove k ps → insert ltb k a ps ≡ ps ++ (k, a) ∷ []
  unfolding insert
  insert-append k a [] h = refl
  insert-append k a ((l, b) ∷ ps) h =
      rw (ltb-false k l h.0, lt→ltb l k h.0, insert-append k a ps h.1) refl

  pub lookup-none : (k : ℕ) (ps : List (ℕ × A)) → IsAbove k ps → lookup ltb k ps ≡ none
  unfolding lookup
  lookup-none k [] h = refl
  lookup-none k ((l, b) ∷ ps) h = rw (ltb-false k l h.0, lt→ltb l k h.0, lookup-none k ps h.1) refl

  pub IsAbove-append :
      (k : ℕ) (ps : List (ℕ × A)) (l : ℕ) (a : A)
      → IsAbove k ps
      → l < k
      → IsAbove k (ps ++ (l, a) ∷ [])
  IsAbove-append k [] l a h less = (less, tt)
  IsAbove-append k (p ∷ ps) l a h less = (h.0, IsAbove-append k ps l a h.1 less)

  pub IsAbove-mono : (j k : ℕ) (ps : List (ℕ × A)) → IsAbove j ps → j ≤ k → IsAbove k ps
  IsAbove-mono j k [] h less = tt
  IsAbove-mono j k (p ∷ ps) h less = (omega (arith, h.0, less), IsAbove-mono j k ps h.1 less)
