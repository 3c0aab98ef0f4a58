-- ===== src/Multi/Partition.antt =====
-- `std::partition_point`, by which src/zk/connection_zk.cpp finds the operation that failed: the binary
-- search of the standard library over the results of a transaction.
use zookeeper_cpp.Base.{
  ℕ, zero, suc, ◌+◌, ◌-◌, ◌/◌, ◌<◌, ◌≤◌, Bool, true, false, ◌≡◌, arith, if◌then◌else◌, Bool-cases,
  ltb, ltb→lt, ltb→ge, inl, inr,
}

-- The loop: `len` places from `first` are left. A round at least halves them, so `len` rounds do.
partition_loop : ℕ → (ℕ → Bool) → ℕ → ℕ → ℕ
partition_loop zero pred first len = first
partition_loop (suc fuel) pred first zero = first
partition_loop (suc fuel) pred first len =
    let half : ℕ = len / 2 in
    if pred (first + half)
    then partition_loop fuel pred (first + half + 1) (len - half - 1)
    else partition_loop fuel pred first half

-- The place of the first element that the test refuses, for a test of the places below `len`.
unfoldable pub partition_point : (ℕ → Bool) → ℕ → ℕ
unfolding partition_loop
partition_point pred len = partition_loop len pred 0 len

-- The test holds on the places below `k`, and on no place from there on below `n`.
pub record PartitionedAt (pred : ℕ → Bool) (k n : ℕ) : Type 0 where
  pub holds : (i : ℕ) → i < k → pred i ≡ true
  pub fails : (i : ℕ) → k ≤ i → i < n → pred i ≡ false

holds-lt : {pred : ℕ → Bool} {k n i : ℕ} → PartitionedAt pred k n → i < n → pred i ≡ true → i < k
holds-lt {pred} {k} {n} {i} v lt e = elim (Bool-cases (ltb i k)) [
  | inl below ↦ ltb→lt i k below
  | inr above ↦ cc (v.fails i (ltb→ge i k above) lt, e)
]

fails-le : {pred : ℕ → Bool} {k n i : ℕ} → PartitionedAt pred k n → pred i ≡ false → k ≤ i
fails-le {pred} {k} {n} {i} v e = elim (Bool-cases (ltb i k)) [
  | inl below ↦ cc (v.holds i (ltb→lt i k below), e)
  | inr above ↦ ltb→ge i k above
]

partition_loop_lem :
    (fuel : ℕ) (pred : ℕ → Bool) (k n first len : ℕ)
    → PartitionedAt pred k n
    → len ≤ fuel
    → first ≤ k
    → k ≤ first + len
    → first + len ≤ n
    → partition_loop fuel pred first len ≡ k
unfolding partition_loop
partition_loop_lem zero pred k n first len v f a b c = omega arith
partition_loop_lem (suc fuel) pred k n first zero v f a b c = omega arith
partition_loop_lem (suc fuel) pred k n first (suc m) v f a b c =
    let half : ℕ = suc m / 2 in
    let inside : first + half < n = omega arith in
    elim (Bool-cases (pred (first + half))) [
      | inl held ↦
          let lt : first + half < k = holds-lt v inside held in
          rw held (
            partition_loop_lem fuel pred k n (first + half + 1) (suc m - half - 1) v (omega arith)
              (omega (arith, lt)) (omega arith) (omega arith))
      | inr failed ↦
          let le : k ≤ first + half = fails-le v failed in
          rw failed (
            partition_loop_lem fuel pred k n first half v (omega arith) a (omega (arith, le))
              (omega arith))
    ]

-- On a sequence that is partitioned, the search finds where.
pub partition_point_lem :
    (pred : ℕ → Bool) (k n : ℕ) → PartitionedAt pred k n → k ≤ n → partition_point pred n ≡ k
unfolding partition_point
partition_point_lem pred k n v le =
    partition_loop_lem n pred k n 0 n v (omega arith) (omega arith) (omega (arith, le))
      (omega arith)
