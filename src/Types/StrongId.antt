-- ===== src/Types/StrongId.antt =====
-- `strong_id` and `transaction_id` (src/zk/types.hpp, src/zk/types.cpp), for its two representations:
-- `std::int32_t` for the versions and `std::size_t` for transactions and servers.
use zookeeper_cpp.Base.{
  ℕ, zero, suc, ◌+◌, ◌-◌, ◌%◌, ◌^◌, ℤ, pos, negsuc, Bool, true, false, not, Option, none, some, ◌≡◌,
  refl, inl, inr, arith, ◌++◌, Bytes, codes, decimal, ltb, lt→ltb, some_inj, ◌∙◌, sym, Bool-cases,
  ◌==◌, ◌==ℤ◌, if◌then◌else◌,
}
use zookeeper_cpp.Types.Version.{Version}

-- The order of the representation.
abbrev pub ltb_ℤ : ℤ → ℤ → Bool
ltb_ℤ (pos a) (pos b) = ltb a b
ltb_ℤ (pos a) (negsuc b) = false
ltb_ℤ (negsuc a) (pos b) = true
ltb_ℤ (negsuc a) (negsuc b) = ltb b a

-- The comparisons of two versions.
unfoldable pub version_equal : Version → Version → Bool
version_equal a b = a.value ==ℤ b.value

unfoldable pub version_differs : Version → Version → Bool
version_differs a b = not (a.value ==ℤ b.value)

unfoldable pub version_less : Version → Version → Bool
version_less a b = ltb_ℤ a.value b.value

unfoldable pub version_at_most : Version → Version → Bool
version_at_most a b = not (ltb_ℤ b.value a.value)

unfoldable pub version_above : Version → Version → Bool
version_above a b = ltb_ℤ b.value a.value

unfoldable pub version_at_least : Version → Version → Bool
version_at_least a b = not (ltb_ℤ a.value b.value)

next_int : ℤ → Option ℤ
next_int (pos n) = if n == 2 ^ 31 - 1 then none else some (pos (suc n))
next_int (negsuc zero) = some (pos 0)
next_int (negsuc (suc n)) = some (negsuc n)

previous_int : ℤ → Option ℤ
previous_int (pos zero) = some (negsuc 0)
previous_int (pos (suc n)) = some (pos n)
previous_int (negsuc n) = if n == 2 ^ 31 - 1 then none else some (negsuc (suc n))

as_version : Option ℤ → Option Version
as_version none = none
as_version (some v) = some (record { value = v })

-- `++` and `--` of a version; the result `none` is an overflow, for which C++ has no meaning.
unfoldable pub increment : Version → Option Version
unfolding next_int as_version
increment self = as_version (next_int self.value)

unfoldable pub decrement : Version → Option Version
unfolding previous_int as_version
decrement self = as_version (previous_int self.value)

kept_old : Version → Option Version → Option (Version × Version)
kept_old old none = none
kept_old old (some new) = some (new, old)

-- The same behind the operand: the version after it, and the copy from before that is the result.
unfoldable pub increment_after : Version → Option (Version × Version)
unfolding kept_old
increment_after self = kept_old self (increment self)

unfoldable pub decrement_after : Version → Option (Version × Version)
unfolding kept_old
decrement_after self = kept_old self (decrement self)

pub record TransactionId : Type 0 where
  pub value : ℕ

-- `++` and `--` of a transaction id, which wrap.
unfoldable pub next_transaction : TransactionId → TransactionId
next_transaction self = record { value = (self.value + 1) % 2 ^ 64 }

unfoldable pub previous_transaction : TransactionId → TransactionId
previous_transaction self = record { value = (self.value + 2 ^ 64 - 1) % 2 ^ 64 }

-- `operator<<` of a transaction id.
unfoldable pub transaction_to_string : TransactionId → Bytes
transaction_to_string self = codes "transaction_id(" ++ decimal self.value ++ codes ")"

-- `hash`, by the hash of the standard library.
unfoldable pub hash : (ℤ → ℕ) → Version → ℕ
hash std_hash x = std_hash x.value

increment-last : (n : ℕ) → n == 2 ^ 31 - 1 ≡ true → increment (record { value = pos n }) ≡ none
unfolding increment next_int as_version
increment-last n h = rw (h) refl

increment-below :
    (n : ℕ)
    → n == 2 ^ 31 - 1 ≡ false
    → increment (record { value = pos n }) ≡ some (record { value = pos (suc n) })
unfolding increment next_int as_version
increment-below n h = rw (h) refl

-- A version that was incremented is greater than the one before.
version_less-increment_by :
    (a : ℤ) (b : Version)
    → increment (record { value = a }) ≡ some b
    → version_less (record { value = a }) b ≡ true
unfolding increment version_less next_int as_version
version_less-increment_by (pos n) b e = elim (Bool-cases (n == 2 ^ 31 - 1)) [
  | inl last ↦ cc (increment-last n last, e)
  | inr below ↦ rw (← some_inj (sym (increment-below n below) ∙ e)) (lt→ltb n (suc n) (omega arith))
]
version_less-increment_by (negsuc zero) b e = rw (← some_inj e) refl
version_less-increment_by (negsuc (suc n)) b e = rw (← some_inj e) (lt→ltb n (suc n) (omega arith))

version_less-increment : (a b : Version) → increment a ≡ some b → version_less a b ≡ true
unfolding increment version_less
version_less-increment a b e = version_less-increment_by a.value b e
