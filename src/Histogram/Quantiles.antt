-- ===== src/Histogram/Quantiles.antt =====
-- The bucket that a quantile falls into.
use traceql_syntax.Base.{
  ℕ, zero, suc, ◌+◌, ◌≤◌, ◌<◌, List, [], ◌∷◌, length, ltb, ◌==◌, ◌≡◌, ◌∙◌, ◌%◌, word_mod, sign_bit,
  biased, add64, slt64, arith, Bool-cases, inl, inr,
}
use native.Mathlib.Nat.{mod-eq_of_lt}
use traceql_syntax.Histogram.{HistogramBucket, Found, exact, within, find_bucket, total_count}

-- The samples in the first buckets.
unfoldable pub count_below : ℕ → List HistogramBucket → ℕ
count_below zero bs = 0
count_below (suc n) [] = 0
count_below (suc n) (b ∷ bs) = b.count + count_below n bs

-- What the end of the loop says, from a bucket with a number of samples before it.
unfoldable pub IsFound : ℕ → List HistogramBucket → ℕ → ℕ → Found → Type 0
IsFound max_samples bs i total (exact j) =
    (n : ℕ) × (i + n ≡ j)
    × (n < length bs)
    × (total + count_below (suc n) bs ≡ max_samples)
    × (total + count_below n bs < max_samples)
IsFound max_samples bs i total (within before j) =
    (n : ℕ) × (i + n ≡ j)
    × (n < length bs)
    × (before ≡ total + count_below n bs)
    × (before < max_samples)
    × (max_samples < total + count_below (suc n) bs)

next-IsFound :
    (max_samples : ℕ) (b : HistogramBucket) (bs : List HistogramBucket) (i total : ℕ) (f : Found)
    → IsFound max_samples bs (suc i) (total + b.count) f
    → IsFound max_samples (b ∷ bs) i total f
unfolding IsFound count_below
next-IsFound max_samples b bs i total (exact j) (n, place, inside, reached, before) = (
  suc n,
  omega (arith, place),
  omega (arith, inside),
  omega (arith, reached),
  omega (arith, before),
)
next-IsFound max_samples b bs i total (within c j) (n, place, inside, e, before, above) = (
  suc n,
  omega (arith, place),
  omega (arith, inside),
  omega (arith, e),
  before,
  omega (arith, above),
)

-- The samples in all buckets.
unfoldable pub samples : List HistogramBucket → ℕ
samples [] = 0
samples (b ∷ bs) = b.count + samples bs

total_count_lem :
    (bs : List HistogramBucket) (total : ℕ)
    → total + samples bs < sign_bit
    → total_count total bs ≡ total + samples bs
unfolding total_count samples add64
total_count_lem [] total h = omega arith
total_count_lem (b ∷ bs) total h =
    let e : (total + b.count) % word_mod ≡ total + b.count = mod-eq_of_lt (omega arith) in
    rw e (total_count_lem bs (total + b.count) (omega (arith, h)) ∙ omega arith)

slt64_small : (m n : ℕ) → m < sign_bit → n < sign_bit → slt64 m n ≡ ltb m n
slt64_small m n h k =
    let e : biased m ≡ m + sign_bit = mod-eq_of_lt (omega (arith, h)) in
    let f : biased n ≡ n + sign_bit = mod-eq_of_lt (omega (arith, k)) in rw (e, f) (ground arith)

find-IsFound :
    (max_samples : ℕ) (bs : List HistogramBucket) (i total bucket : ℕ)
    → total + samples bs < sign_bit
    → total < max_samples
    → max_samples ≤ total + samples bs
    → IsFound max_samples bs i total (find_bucket max_samples bs i total bucket)
unfolding find_bucket samples IsFound count_below add64
find-IsFound max_samples [] i total bucket small before enough = absurd (omega arith)
find-IsFound max_samples (b ∷ bs) i total bucket small before enough =
    let sum : (total + b.count) % word_mod ≡ total + b.count = mod-eq_of_lt (omega arith) in
    let test : slt64 max_samples (total + b.count) ≡ ltb max_samples (total + b.count) =
      slt64_small max_samples (total + b.count) (omega arith) (omega arith) in
    rw (sum, test)
      (elim (Bool-cases (ltb max_samples (total + b.count))) [
        | inl over ↦
            let beyond : max_samples < total + b.count = ground (arith, over) in
            rw over (0, omega arith, omega arith, omega arith, before, omega (arith, beyond))
        | inr under ↦ elim (Bool-cases (total + b.count == max_samples)) [
          | inl same ↦
              let e : total + b.count ≡ max_samples = ground (arith, same) in
              rw (under, same)
                (0, omega arith, omega arith, omega (arith, e), omega (arith, before))
          | inr other ↦
              let less : total + b.count < max_samples = ground (arith, under, other) in
              rw (under, other)
                (next-IsFound max_samples b bs i total
                  (find_bucket max_samples bs (suc i) (total + b.count) i)
                  (find-IsFound max_samples bs (suc i) (total + b.count) i (omega (arith, small))
                    less (omega (arith, enough))))
        ]
      ])

-- For buckets with fewer than 2 ^ 63 samples together: the total count is their number. For some
-- sample at least, and no more than the total, the search ends within the buckets, either with the
-- bucket that the samples end with, or with the bucket that has more than are left, and with the
-- number of samples before it.
pub find_bucket-IsFound :
    (max_samples : ℕ) (bs : List HistogramBucket)
    → samples bs < sign_bit
    → 0 < max_samples
    → max_samples ≤ total_count 0 bs
    → (total_count 0 bs ≡ samples bs)
      × IsFound max_samples bs 0 0 (find_bucket max_samples bs 0 0 0)
find_bucket-IsFound max_samples bs small some' enough =
    let total = total_count_lem bs 0 (omega (arith, small)) in
    (
      total ∙ omega arith,
      find-IsFound max_samples bs 0 0 0 (omega (arith, small)) some' (omega (arith, enough, total)),
    )
