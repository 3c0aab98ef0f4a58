-- ===== src/Zk/AclList.antt =====
-- An access control list through the structures of the C library and back (src/zk/connection_zk.cpp).
use zookeeper_cpp.Base.{
  ℕ, ◌^◌, ◌<◌, Bool, not, ◌≡◌, refl, arith, [], ◌∷◌, All, IsAll, Bytes, map, length, to_word, ◌==◌,
  Bool-cases, inl, inr,
}
use zookeeper_cpp.Acl.Rule.{Acl, AclRule}
use zookeeper_cpp.Zk.Adaptors.{
  to_int, c_string, encode_acl_part, with_acl, acl_from_raw, acl_items, acl_part_from_raw,
}

abbrev pub is_not_null : ℕ → Bool
is_not_null c = not (c == 0)

-- A text with no byte 0 is read whole.
pub c_string_lem : (xs : Bytes) → IsAll is_not_null xs → c_string xs ≡ xs
unfolding c_string
c_string_lem [] h = refl
c_string_lem (c ∷ cs) h = elim (Bool-cases (c == 0)) [
  | inl null ↦ cc (h.0, null)
  | inr other ↦ rw (other, c_string_lem cs h.1) refl
]

word_back : (n : ℕ) → n < 2 ^ 32 → to_word 32 (to_int n) ≡ n
unfolding to_word to_int
word_back n lt = ground arith

count_back : (n : ℕ) → n < 2 ^ 31 → to_word 64 (to_int n) ≡ n
unfolding to_word to_int
count_back n lt = ground arith

-- The texts of a rule have no byte 0, and its permissions have 32 bits, as their type has.
abbrev pub IsEncodable : AclRule → Type 0
IsEncodable x = IsAll is_not_null x.scheme × IsAll is_not_null x.id × (x.permissions < 2 ^ 32)

part_back : (x : AclRule) → IsEncodable x → acl_part_from_raw (encode_acl_part x) ≡ x
unfolding acl_part_from_raw encode_acl_part
part_back x h =
    let scheme = c_string_lem x.scheme h.0 in
    let id = c_string_lem x.id h.1 in rw (scheme, scheme, id, id, word_back x.permissions h.2) refl

items_back :
    (rules : Acl)
    → All IsEncodable rules
    → acl_items (length rules) (map encode_acl_part rules) ≡ rules
unfolding acl_items
items_back [] h = refl
items_back (x ∷ rules) h = rw (part_back x h.0, items_back rules h.1) refl

-- A list of less than 2 to the 31 rules, whose texts have no byte 0 and whose permissions have 32 bits,
-- as their type has, is the same list again after it is encoded for the library and decoded.
pub acl_from_raw-with_acl :
    (rules : Acl)
    → length rules < 2 ^ 31
    → All IsEncodable rules
    → acl_from_raw (with_acl rules) ≡ rules
unfolding acl_from_raw with_acl
acl_from_raw-with_acl rules few h = rw (count_back (length rules) few) (items_back rules h)
