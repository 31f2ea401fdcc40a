-- ===== src/Stats/Drift/Buckets.antt =====
-- `bucket` of crates/statguardian-stats/src/drift.rs as a histogram.
use stat_guardian.Base.{
  ℕ, zero, suc, ◌+◌, ◌-◌, ◌^◌, ◌<◌, ◌≡◌, refl, List, [], ◌∷◌, length, filter, ◌==◌, nat_eq,
  if◌then◌else◌, arith,
}
use stat_guardian.Validators.Frame.{Floats}
use stat_guardian.Stats.Drift.{zero_counts, bump, bucket_of, fill, bucket}

-- The count at an index, and all counts together.
abbrev pub count_at : List ℕ → ℕ → ℕ
count_at [] k = 0
count_at (c ∷ cs) zero = c
count_at (c ∷ cs) (suc k) = count_at cs k

abbrev pub total : List ℕ → ℕ
total [] = 0
total (c ∷ cs) = c + total cs

length-bump : (i : ℕ) (cs : List ℕ) → length (bump i cs) ≡ length cs
unfolding bump
length-bump i [] = refl
length-bump zero (c ∷ cs) = refl
length-bump (suc i) (c ∷ cs) = omega (arith, length-bump i cs)

count_at-bump :
    (i : ℕ) (cs : List ℕ) (k : ℕ)
    → i < length cs
    → count_at cs k < 2 ^ 32 - 1
    → count_at (bump i cs) k ≡ (if i == k then count_at cs k + 1 else count_at cs k)
unfolding bump
count_at-bump i [] k inside small = absurd (omega arith)
count_at-bump zero (c ∷ cs) zero inside small = ground arith
count_at-bump zero (c ∷ cs) (suc k) inside small = ground arith
count_at-bump (suc i) (c ∷ cs) zero inside small = ground arith
count_at-bump (suc i) (c ∷ cs) (suc k) inside small =
    ground (arith, count_at-bump i cs k (omega arith) small)

total-bump :
    (i : ℕ) (cs : List ℕ) → i < length cs → total cs < 2 ^ 32 - 1 → total (bump i cs) ≡ total cs + 1
unfolding bump
total-bump i [] inside small = absurd (omega arith)
total-bump zero (c ∷ cs) inside small = omega arith
total-bump (suc i) (c ∷ cs) inside small =
    omega (arith, total-bump i cs (omega arith) (omega arith))

count_at-zero_counts : (n k : ℕ) → count_at (zero_counts n) k ≡ 0
unfolding zero_counts
count_at-zero_counts zero k = refl
count_at-zero_counts (suc n) zero = refl
count_at-zero_counts (suc n) (suc k) = count_at-zero_counts n k

total-zero_counts : (n : ℕ) → total (zero_counts n) ≡ 0
unfolding zero_counts
total-zero_counts zero = refl
total-zero_counts (suc n) = omega (arith, total-zero_counts n)

length-zero_counts : (n : ℕ) → length (zero_counts n) ≡ n
unfolding zero_counts
length-zero_counts zero = refl
length-zero_counts (suc n) = omega (arith, length-zero_counts n)

module _ {F64 : Type 0} (f : Floats F64) (lo width : F64) (bins : ℕ) (some_bin : 0 < bins) where
  bucket_of-lt : (v : F64) → bucket_of f lo width bins v < bins
  unfolding bucket_of
  bucket_of-lt v = omega arith

  count_at-fill :
      (vals : List F64) (cs : List ℕ) (k : ℕ)
      → length cs ≡ bins
      → count_at cs k + length vals < 2 ^ 32
      → count_at (fill f lo width bins vals cs) k
        ≡ count_at cs k + length (filter (λ v. bucket_of f lo width bins v == k) vals)
  unfolding fill
  count_at-fill [] cs k shape small = omega arith
  count_at-fill (v ∷ vals) cs k shape small =
      let i = bucket_of f lo width bins v in
      ground (
        arith,
        bucket_of-lt v,
        length-bump i cs,
        count_at-bump i cs k,
        count_at-fill vals (bump i cs) k,
      )

  total-fill :
      (vals : List F64) (cs : List ℕ)
      → length cs ≡ bins
      → total cs + length vals < 2 ^ 32
      → total (fill f lo width bins vals cs) ≡ total cs + length vals
  unfolding fill
  total-fill [] cs shape small = omega arith
  total-fill (v ∷ vals) cs shape small =
      let i = bucket_of f lo width bins v in
      ground (arith, bucket_of-lt v, length-bump i cs, total-bump i cs, total-fill vals (bump i cs))

  -- With a bin or more and fewer than 2^32 values, the count of each bin is the number of values
  -- that fall in it, and all counts together are the number of values.
  bucket-exact :
      (vals : List F64)
      → length vals < 2 ^ 32
      → ((k : ℕ)
          → count_at (bucket f vals lo width bins) k
            ≡ length (filter (λ v. bucket_of f lo width bins v == k) vals))
        × (total (bucket f vals lo width bins) ≡ length vals)
  unfolding bucket
  bucket-exact vals small = (
    λ k. omega (
      arith,
      count_at-zero_counts bins k,
      count_at-fill vals (zero_counts bins) k (length-zero_counts bins)
          (omega (arith, count_at-zero_counts bins k)),
    ),
    omega (
      arith,
      total-zero_counts bins,
      total-fill vals (zero_counts bins) (length-zero_counts bins)
          (omega (arith, total-zero_counts bins)),
    ),
  )
