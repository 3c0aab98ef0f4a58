-- ===== src/Multi/Slices.antt =====
-- The arrays that `connection_zk::commit` fills (src/zk/connection_zk.cpp): writes through a pointer that
-- moves up, and the slice that holds the rules of one ACL.
use zookeeper_cpp.Base.{
  ℕ, ◌+◌, ◌<◌, ◌≤◌, List, [], ◌∷◌, ◌++◌, some, ◌≡◌, refl, subst, ◌∙◌, arith, lt→ltb, length,
  length-append, get_elem?, get_elem?-lt, get_elem?-concat_self, get_elem?-concat_ne,
}
use zookeeper_cpp.Acl.Rule.{Acl}
use zookeeper_cpp.Zk.Adaptors.{encode_acl_part}
use zookeeper_cpp.Zk.Zoo.{RawAcl}
use zookeeper_cpp.Multi.Commit.{put, put_rules}

module _ {ℓ} {A : Type ℓ} where
  -- What is in one array is at the same place in the other.
  abbrev pub Keeps : List A → List A → Type ℓ
  Keeps xs ys = (i : ℕ) (a : A) → get_elem? xs i ≡ some a → get_elem? ys i ≡ some a

  pub Keeps-concat : (xs : List A) (x : A) → Keeps xs (xs ++ x ∷ [])
  Keeps-concat xs x i a e =
      get_elem?-concat_ne xs x i (λ same. omega (arith, get_elem?-lt xs i e, same)) ∙ e

  pub length-concat : (xs : List A) (x : A) → length (xs ++ x ∷ []) ≡ length xs + 1
  length-concat xs x = length-append xs (x ∷ [])

  pub put_lem :
      (capacity : ℕ) (xs : List A) (x : A)
      → length xs < capacity
      → put capacity xs x ≡ some (xs ++ x ∷ [])
  unfolding put
  put_lem capacity xs x lt = rw (lt→ltb _ _ lt) refl

-- The rules of one ACL stand in the array of pieces from some place on.
abbrev pub HoldsRules : List RawAcl → ℕ → Acl → Type 0
HoldsRules pieces off [] = Unit
HoldsRules pieces off (rule ∷ rules) =
    (get_elem? pieces off ≡ some (encode_acl_part rule)) × HoldsRules pieces (off + 1) rules

pub Keeps-HoldsRules :
    (xs ys : List RawAcl) (off : ℕ) (rules : Acl)
    → Keeps xs ys
    → HoldsRules xs off rules
    → HoldsRules ys off rules
Keeps-HoldsRules xs ys off [] k h = tt
Keeps-HoldsRules xs ys off (rule ∷ rules) k h =
    (k off _ h.0, Keeps-HoldsRules xs ys (off + 1) rules k h.1)

pub put_rules_lem :
    (capacity : ℕ) (pieces : List RawAcl) (rules : Acl)
    → length pieces + length rules ≤ capacity
    → (pieces' : List RawAcl) × (put_rules capacity pieces rules ≡ some pieces')
      × (length pieces' ≡ length pieces + length rules)
      × Keeps pieces pieces'
      × HoldsRules pieces' (length pieces) rules
unfolding put_rules
put_rules_lem capacity pieces [] le = (pieces, refl, omega arith, (λ i a e. e), tt)
put_rules_lem capacity pieces (rule ∷ rules) le =
    let x : RawAcl = encode_acl_part rule in
    let one = length-concat pieces x in
    let (out, e, n, keeps, holds) =
      put_rules_lem capacity (pieces ++ x ∷ []) rules (omega (arith, one)) in
    (
      out,
      rw (put_rules, put_lem capacity pieces x (omega arith)) e,
      omega (arith, n, one),
      (λ i a f. keeps i a (Keeps-concat pieces x i a f)),
      (
        keeps (length pieces) x (get_elem?-concat_self pieces x),
        subst (λ i. HoldsRules out i rules) one holds,
      ),
    )
