-- ===== src/Acl/Order.antt =====
-- The order of the rules of an access control list (src/zk/acl.cpp).
use zookeeper_cpp.Base.{true, false, [], ◌∷◌, ◌≡◌, ◌⊎◌, inl, inr, refl, arith, Bool-cases, Bytes}
use zookeeper_cpp.Acl.Rule.{AclRule, less_text, rule_less}

pub less_text_irrefl : (a : Bytes) → less_text a a ≡ false
unfolding less_text
less_text_irrefl [] = refl
less_text_irrefl (x ∷ a) = ground (arith, less_text_irrefl a)

less_text_trans :
    (a b c : Bytes) → less_text a b ≡ true → less_text b c ≡ true → less_text a c ≡ true
unfolding less_text
less_text_trans [] [] c e f = cc e
less_text_trans [] (y ∷ b) [] e f = cc f
less_text_trans [] (y ∷ b) (z ∷ c) e f = refl
less_text_trans (x ∷ a) [] c e f = cc e
less_text_trans (x ∷ a) (y ∷ b) [] e f = cc f
less_text_trans (x ∷ a) (y ∷ b) (z ∷ c) e f = ground (arith, less_text_trans a b c)

less_text_total : (a b : Bytes) → (less_text a b ≡ true) ⊎ ((less_text b a ≡ true) ⊎ (a ≡ b))
unfolding less_text
less_text_total [] [] = inr (inr refl)
less_text_total [] (y ∷ b) = inl refl
less_text_total (x ∷ a) [] = inr (inl refl)
less_text_total (x ∷ a) (y ∷ b) = ground (arith, less_text_total a b)

-- Of two rules one is less than the other or they are equal, and no rule is less than itself.
pub rule_less-trichotomy :
    (a b : AclRule)
    → ((rule_less a b ≡ true) ⊎ ((rule_less b a ≡ true) ⊎ (a ≡ b))) × (rule_less a a ≡ false)
unfolding rule_less
rule_less-trichotomy a b = (
  ground (
    arith,
    less_text_total a.scheme b.scheme,
    less_text_total a.id b.id,
    less_text_irrefl a.scheme,
    less_text_irrefl a.id,
  ),
  ground (arith, less_text_irrefl a.scheme, less_text_irrefl a.id),
)

less_text_asym : (a b : Bytes) → less_text a b ≡ true → less_text b a ≡ false
less_text_asym a b e = elim (Bool-cases (less_text b a)) [
  | inl back ↦ cc (less_text_trans a b a e back, less_text_irrefl a)
  | inr not_back ↦ not_back
]

-- A text that is not more than the next, and is that if it is not less.
not_more : (a b : Bytes) → less_text b a ≡ false → (less_text a b ≡ true) ⊎ (a ≡ b)
not_more a b e = elim (less_text_total a b) [
  | inl less ↦ inl less
  | inr (inl more) ↦ cc (more, e)
  | inr (inr same) ↦ inr same
]

-- The order is transitive.
pub rule_less_trans :
    (a b c : AclRule) → rule_less a b ≡ true → rule_less b c ≡ true → rule_less a c ≡ true
unfolding rule_less
rule_less_trans a b c e f = ground (
  arith,
  less_text_trans a.scheme b.scheme c.scheme,
  less_text_trans a.id b.id c.id,
  less_text_asym a.scheme c.scheme,
  less_text_asym a.id c.id,
  not_more a.scheme b.scheme,
  not_more b.scheme c.scheme,
  not_more a.id b.id,
  not_more b.id c.id,
  less_text_irrefl c.scheme,
  less_text_irrefl c.id,
)
