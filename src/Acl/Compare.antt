-- ===== src/Acl/Compare.antt =====
-- The comparisons of rules that are made of `operator<` and `operator==`, and the hash of a rule
-- (src/zk/acl.cpp).
use zookeeper_cpp.Base.{
  ℕ, Bool, true, false, not, ◌⊎◌, inl, inr, ◌↔◌, ◌≡◌, refl, sym, Bool-cases, Bytes,
}
use zookeeper_cpp.Acl.Order.{rule_less-trichotomy, rule_less_trans}
use zookeeper_cpp.Acl.Rule.{AclRule, Acl, rule_equal, rule_less, acl_equal}

unfoldable pub rule_differs : AclRule → AclRule → Bool
rule_differs lhs rhs = not (rule_equal lhs rhs)

unfoldable pub rule_at_most : AclRule → AclRule → Bool
rule_at_most lhs rhs = not (rule_less rhs lhs)

unfoldable pub rule_above : AclRule → AclRule → Bool
rule_above lhs rhs = rule_less rhs lhs

unfoldable pub rule_at_least : AclRule → AclRule → Bool
rule_at_least lhs rhs = not (rule_less lhs rhs)

unfoldable pub acl_differs : Acl → Acl → Bool
acl_differs lhs rhs = not (acl_equal lhs rhs)

-- The hashes of the standard library, and the exclusive or of their results.
pub record Hashes : Type 0 where
  pub hash_text : Bytes → ℕ
  pub hash_number : ℕ → ℕ
  pub exclusive_or : ℕ → ℕ → ℕ

-- `hash`.
unfoldable pub rule_hash : Hashes → AclRule → ℕ
rule_hash h self =
    h.exclusive_or (h.exclusive_or (h.hash_text self.scheme) (h.hash_text self.id))
      (h.hash_number self.permissions)

rule_less_asym : (a b : AclRule) → rule_less a b ≡ true → rule_less b a ≡ false
rule_less_asym a b e = elim (Bool-cases (rule_less b a)) [
  | inr not_back ↦ not_back
  | inl back ↦ cc (rule_less_trans a b a e back, (rule_less-trichotomy a a).1)
]

rule_at_most_iff : (a b : AclRule) → (rule_at_most a b ≡ true) ↔ ((rule_less a b ≡ true) ⊎ (a ≡ b))
unfolding rule_at_most
rule_at_most_iff a b = (
  (λ h. elim ((rule_less-trichotomy a b).0) [
    | inl less ↦ inl less
    | inr (inl more) ↦ cc (h, more)
    | inr (inr same) ↦ inr same
  ]),
  λ h. elim h [
    | inl less ↦ rw (rule_less_asym a b less) refl
    | inr same ↦ rw (same, (rule_less-trichotomy b b).1) refl
  ],
)

rule_at_least_iff :
    (a b : AclRule) → (rule_at_least a b ≡ true) ↔ ((rule_above a b ≡ true) ⊎ (a ≡ b))
unfolding rule_at_least rule_above rule_at_most
rule_at_least_iff a b = (
  (λ h. elim ((rule_at_most_iff b a).0 h) [ inl more ↦ inl more | inr same ↦ inr (sym same) ]),
  λ h. elim h [
    | inl more ↦ (rule_at_most_iff b a).1 (inl more)
    | inr same ↦ (rule_at_most_iff b a).1 (inr (sym same))
  ],
)

rule_less_step :
    (a b c : AclRule) → (rule_less a b ≡ false) ⊎ ((rule_less b c ≡ false) ⊎ (rule_less a c ≡ true))
rule_less_step a b c = elim (Bool-cases (rule_less a b)) [
  | inr no_first ↦ inl no_first
  | inl first ↦ elim (Bool-cases (rule_less b c)) [
    | inr no_second ↦ inr (inl no_second)
    | inl second ↦ inr (inr (rule_less_trans a b c first second))
  ]
]

-- `operator<` of rules is a strict total order, and `<=` and `>=` are less or equal and more or equal in
-- it: of two rules one is less or they are equal, no rule is less than itself, and if one is less than a
-- second and that less than a third, then it is less than the third.
pub rule_less_order :
    (a b c : AclRule)
    → ((rule_less a b ≡ true) ⊎ ((rule_less b a ≡ true) ⊎ (a ≡ b)))
      × (rule_less a a ≡ false)
      × ((rule_less a b ≡ false) ⊎ ((rule_less b c ≡ false) ⊎ (rule_less a c ≡ true)))
      × ((rule_at_most a b ≡ true) ↔ ((rule_less a b ≡ true) ⊎ (a ≡ b)))
      × ((rule_at_least a b ≡ true) ↔ ((rule_above a b ≡ true) ⊎ (a ≡ b)))
rule_less_order a b c = (
  (rule_less-trichotomy a b).0,
  (rule_less-trichotomy a b).1,
  rule_less_step a b c,
  rule_at_most_iff a b,
  rule_at_least_iff a b,
)
