-- ===== src/Buckets.antt =====
-- traceql/util.go: the bucket set that limits the exemplars of a query. The times are uint64; the number
-- of buckets and the totals are those of a uint32, so that their ints do not overflow. A read or a write
-- out of the slice is a panic, `none`.
pub mod Counts
use traceql_syntax.Base.{
  ℕ, ◌+◌, ◌-◌, ◌/◌, ◌≤◌, max, Bool, true, false, not, ◌&&◌, ◌||◌, List, [], ◌∷◌, ◌++◌, Option, none,
  some, ltb, leb, ◌==◌, get_elem?, set, sub64, sign_bit, if◌then◌else◌, zero, suc,
}

pub record LimitedBucketSet : Type 0 where
  pub sz : ℕ
  pub max_total : ℕ
  pub max_bucket : ℕ
  pub buckets : List ℕ
  pub start : ℕ
  pub end : ℕ
  pub bucket_width : ℕ

abbrev pub max_exemplars_per_bucket : ℕ
max_exemplars_per_bucket = 2

-- make([]int, n)
abbrev pub make : ℕ → List ℕ
make zero = []
make (suc n) = 0 ∷ make n

abbrev nanos_per_milli : ℕ
nanos_per_milli = 1000000

abbrev pub number_of_buckets : ℕ → ℕ
number_of_buckets exemplars =
    if (exemplars / max_exemplars_per_bucket) == 0 then 1 else exemplars / max_exemplars_per_bucket

unfoldable pub new_bucket_set : ℕ → ℕ → ℕ → LimitedBucketSet
unfolding sub64
new_bucket_set exemplars start end =
    let buckets = number_of_buckets exemplars in
    let start_ms = start / nanos_per_milli in
    let end_ms = end / nanos_per_milli in
    record {
      sz = buckets;
      max_total = exemplars;
      max_bucket = max_exemplars_per_bucket;
      buckets = make (buckets + 1);
      start = start_ms;
      end = end_ms;
      bucket_width = max (sub64 end_ms start_ms / buckets) 1;
    }

-- b.len()
unfoldable pub len : LimitedBucketSet → Option ℕ
len b = get_elem? b.buckets b.sz

-- b.testTotal() on a total
unfoldable pub test_total : LimitedBucketSet → ℕ → Bool
test_total b total = leb b.max_total total

unfoldable pub in_range : LimitedBucketSet → ℕ → Bool
in_range b ts = leb b.start ts && leb ts b.end

-- `ts` is in range where this is called, so that the difference does not wrap around. `none` is a
-- panic: the division by a width of 0, or the index that an int below 0 is, which is not clamped.
unfoldable pub bucket : LimitedBucketSet → ℕ → Option ℕ
bucket b ts =
    if b.start == b.end
    then some 0
    else if b.bucket_width == 0
    then none
    else if leb sign_bit ((ts - b.start) / b.bucket_width)
    then none
    else if leb b.sz ((ts - b.start) / b.bucket_width)
    then some (b.sz - 1)
    else some ((ts - b.start) / b.bucket_width)

-- The two increments.
unfoldable pub increment : ℕ → List ℕ → Option (List ℕ)
increment i xs = elim (get_elem? xs i) [ none ↦ none | some n ↦ some (set xs i (n + 1)) ]

-- Bucket `i` has the count `n`: it is full, or it and the total go up by one.
unfoldable pub add_unless_full : LimitedBucketSet → ℕ → ℕ → Option (LimitedBucketSet × Bool)
unfolding increment
add_unless_full b i n =
    if leb b.max_bucket n then some (b, true) else elim (increment i b.buckets) [
      | none ↦ none
      | some xs ↦ elim (increment b.sz xs) [
        | none ↦ none
        | some ys ↦ some (record b { buckets = ys }, false)
      ]
    ]

-- A time in range, with the total that the set has.
unfoldable pub add_in_range : LimitedBucketSet → ℕ → ℕ → Option (LimitedBucketSet × Bool)
unfolding test_total bucket add_unless_full
add_in_range b ts total =
    if test_total b total || b.sz == 0 then some (b, true) else elim (bucket b ts) [
      | none ↦ none
      | some i ↦ elim (get_elem? b.buckets i) [ none ↦ none | some n ↦ add_unless_full b i n ]
    ]

unfoldable pub add_and_test : LimitedBucketSet → ℕ → Option (LimitedBucketSet × Bool)
unfolding in_range len add_in_range
add_and_test b ts =
    if not (in_range b ts)
    then some (b, true)
    else elim (len b) [ none ↦ none | some total ↦ add_in_range b ts total ]
