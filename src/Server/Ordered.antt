-- ===== src/Server/Ordered.antt =====
-- `std::map` and `std::set` as lists in their order (src/zk/server/configuration.cpp uses both).
pub mod Append
use zookeeper_cpp.Base.{Bool, true, false, List, [], ◌∷◌, Option, none, some, if◌then◌else◌}

module _ {ℓ κ} {K : Type ℓ} {A : Type κ} (less : K → K → Bool) where
  -- `insert` and `emplace` of a map: an entry that is there stays.
  unfoldable pub insert : K → A → List (K × A) → List (K × A)
  insert k a [] = (k, a) ∷ []
  insert k a ((l, b) ∷ ps) =
      let rest = insert k a ps in
      if less k l then (k, a) ∷ (l, b) ∷ ps else if less l k then (l, b) ∷ rest else (l, b) ∷ ps

  -- `find`, and the test `count`.
  unfoldable pub lookup : K → List (K × A) → Option A
  lookup k [] = none
  lookup k ((l, b) ∷ ps) =
      let rest = lookup k ps in if less k l then none else if less l k then rest else some b

module _ {ℓ} {K : Type ℓ} (less : K → K → Bool) where
  -- `insert` of a set.
  unfoldable pub set_insert : K → List K → List K
  set_insert k [] = k ∷ []
  set_insert k (l ∷ ls) =
      let rest = set_insert k ls in
      if less k l then k ∷ l ∷ ls else if less l k then l ∷ rest else l ∷ ls

  -- `count` of a set.
  unfoldable pub contains : K → List K → Bool
  contains k [] = false
  contains k (l ∷ ls) =
      let rest = contains k ls in if less k l then false else if less l k then rest else true

module _ {ℓ κ} {K : Type ℓ} {A : Type κ} (less : K → K → Bool) where
  -- `erase` of a map.
  unfoldable pub erase : K → List (K × A) → List (K × A)
  erase k [] = []
  erase k ((l, b) ∷ ps) =
      let rest = erase k ps in
      if less k l then (l, b) ∷ ps else if less l k then (l, b) ∷ rest else ps
