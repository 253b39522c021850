-- ===== src/Buckets/Counts.antt =====
-- The counts of a bucket set: within the limits, and never out of the slice.
use traceql_syntax.Base.{
  ℕ, zero, suc, ◌+◌, ◌-◌, ◌/◌, ◌≤◌, ◌<◌, Bool, true, false, ◌||◌, List, [], ◌∷◌, ◌++◌, All, Option,
  some, leb, ◌==◌, get_elem?, set, length, length-set, ◌≡◌, refl, sym, ap, ◌∙◌, arith, absurd_test,
  Bool-cases, ◌⊎◌, min, word_mod, sign_bit, inl, inr,
}
use mathlib.Core.Path.{subst}
use native.Mathlib.Nat.{zero-div, div-le_self, div-mul-le_self}
use traceql_syntax.Buckets.{
  LimitedBucketSet, nanos_per_milli, make, number_of_buckets, new_bucket_set,
  max_exemplars_per_bucket, len, test_total, in_range, bucket, increment, add_unless_full,
  add_in_range, add_and_test,
}

abbrev pub sum : List ℕ → ℕ
sum [] = 0
sum (x ∷ xs) = x + sum xs

-- The slice is the counts of the buckets with their sum behind; no bucket and no sum is above its
-- limit; buckets have a width, and the end is an int.
pub record IsWell (b : LimitedBucketSet) : Type 0 where
  pub counts : List ℕ
  pub split : b.buckets ≡ counts ++ (sum counts ∷ [])
  pub size : length counts ≡ b.sz
  pub some_bucket : 0 < b.sz
  pub bucket_limit : All (λ n. n ≤ b.max_bucket) counts
  pub total_limit : sum counts ≤ b.max_total
  pub width : 0 < b.bucket_width
  pub end_small : b.end < sign_bit

get_elem?-inside :
    (xs : List ℕ) (t i : ℕ)
    → i < length xs
    → (n : ℕ) × (get_elem? (xs ++ (t ∷ [])) i ≡ some n) × (get_elem? xs i ≡ some n)
get_elem?-inside [] t i h = absurd (omega arith)
get_elem?-inside (x ∷ xs) t zero h = (x, refl, refl)
get_elem?-inside (x ∷ xs) t (suc i) h = get_elem?-inside xs t i (omega arith)

get_elem?-last : (xs : List ℕ) (t : ℕ) → get_elem? (xs ++ (t ∷ [])) (length xs) ≡ some t
get_elem?-last [] t = refl
get_elem?-last (x ∷ xs) t = get_elem?-last xs t

set-inside :
    (xs : List ℕ) (t i v : ℕ) → i < length xs → set (xs ++ (t ∷ [])) i v ≡ set xs i v ++ (t ∷ [])
set-inside [] t i v h = absurd (omega arith)
set-inside (x ∷ xs) t zero v h = refl
set-inside (x ∷ xs) t (suc i) v h = ap (λ ys. x ∷ ys) (set-inside xs t i v (omega arith))

set-last : (xs : List ℕ) (t v : ℕ) → set (xs ++ (t ∷ [])) (length xs) v ≡ xs ++ (v ∷ [])
set-last [] t v = refl
set-last (x ∷ xs) t v = ap (λ ys. x ∷ ys) (set-last xs t v)

some_injective : {m n : ℕ} → some m ≡ some n → m ≡ n
some_injective h = cc

sum-set : (xs : List ℕ) (i n : ℕ) → get_elem? xs i ≡ some n → sum (set xs i (n + 1)) ≡ sum xs + 1
sum-set [] i n h = cc
sum-set (x ∷ xs) zero n h = let e : x ≡ n = some_injective h in omega (arith, e)
sum-set (x ∷ xs) (suc i) n h = omega (arith, sum-set xs i n h)

set-All :
    (m : ℕ) (xs : List ℕ) (i v : ℕ) → v ≤ m → All (λ n. n ≤ m) xs → All (λ n. n ≤ m) (set xs i v)
set-All m [] i v h a = tt
set-All m (x ∷ xs) zero v h a = (h, a.1)
set-All m (x ∷ xs) (suc i) v h a = (a.0, set-All m xs i v h a.1)

-- The bucket of a time: as many widths after the start, or the last one.
abbrev pub place : LimitedBucketSet → ℕ → ℕ
place b ts = min ((ts - b.start) / b.bucket_width) (b.sz - 1)

bucket_lem :
    (b : LimitedBucketSet) (ts : ℕ)
    → IsWell b
    → b.start ≤ ts
    → ts ≤ b.end
    → bucket b ts ≡ some (place b ts)
unfolding bucket
bucket_lem b ts w after before = elim (Bool-cases (b.start == b.end)) [
  | inl same ↦
      let e : b.start ≡ b.end = ground (arith, same) in
      let none_yet : ts - b.start ≡ 0 = omega (arith, e, after, before) in
      let f : (ts - b.start) / b.bucket_width ≡ 0 = rw none_yet (zero-div b.bucket_width) in
      rw (same, f) (ap some (omega arith))
  | inr apart ↦
      let q = (ts - b.start) / b.bucket_width in
      let wide : (b.bucket_width == 0) ≡ false = ground (arith, w.width) in
      let small : q < sign_bit =
        omega (arith, div-le_self (ts - b.start) b.bucket_width, w.end_small, before) in
      let int : leb sign_bit q ≡ false = ground (arith, small) in
      rw (apart, wide, int)
        (elim (Bool-cases (leb b.sz q)) [
          | inl far ↦ rw far (ap some (ground (arith, far)))
          | inr near ↦ rw near (ap some (ground (arith, near)))
        ])
]

place_lt : (b : LimitedBucketSet) (ts : ℕ) → 0 < b.sz → place b ts < b.sz
place_lt b ts h = omega arith

-- Why a time is refused: it is out of the range, or the limit of the total, or of its bucket, is
-- reached.
abbrev pub Refuses : LimitedBucketSet → List ℕ → ℕ → Type 0
Refuses b counts ts =
    (ts < b.start)
    ⊎ ((b.end < ts)
        ⊎ ((b.max_total ≤ sum counts)
            ⊎ ((n : ℕ) × (get_elem? counts (place b ts) ≡ some n) × (b.max_bucket ≤ n))))

-- A time that there is room for: the counts of its bucket and of the total go up by one.
abbrev pub Counts : LimitedBucketSet → List ℕ → ℕ → LimitedBucketSet → Type 0
Counts b counts ts b' =
    (b.start ≤ ts)
    × (ts ≤ b.end)
    × (sum counts < b.max_total)
    × ((n : ℕ) × (get_elem? counts (place b ts) ≡ some n)
        × (n < b.max_bucket)
        × (b' ≡ record b { buckets = set counts (place b ts) (n + 1) ++ ((sum counts + 1) ∷ []) }))

-- A time is refused for a reason and changes nothing, or it is counted.
abbrev pub Added : (b : LimitedBucketSet) → IsWell b → ℕ → Option (LimitedBucketSet × Bool) → Type 0
Added b w ts r =
    (b' : LimitedBucketSet) × (full : Bool) × (r ≡ some (b', full))
    × IsWell b'
    × (full ≡ true → (b' ≡ b) × Refuses b w.counts ts)
    × (full ≡ false → Counts b w.counts ts b')

increment-inside :
    (xs : List ℕ) (t i n : ℕ)
    → i < length xs
    → get_elem? (xs ++ (t ∷ [])) i ≡ some n
    → increment i (xs ++ (t ∷ [])) ≡ some (set xs i (n + 1) ++ (t ∷ []))
unfolding increment
increment-inside xs t i n h e = rw (increment, e) (ap some (set-inside xs t i (n + 1) h))

increment-last :
    (xs : List ℕ) (t : ℕ) → increment (length xs) (xs ++ (t ∷ [])) ≡ some (xs ++ ((t + 1) ∷ []))
unfolding increment
increment-last xs t = rw (increment, get_elem?-last xs t) (ap some (set-last xs t (t + 1)))

module _ (b : LimitedBucketSet) (w : IsWell b) (ts : ℕ) where
  refused :
      {r : Option (LimitedBucketSet × Bool)}
      → Refuses b w.counts ts
      → r ≡ some (b, true)
      → Added b w ts r
  refused why e = (b, true, e, w, (λ h. (refl, why)), λ h. absurd_test h)

  add_unless_full-Added :
      (n : ℕ)
      → b.start ≤ ts
      → ts ≤ b.end
      → get_elem? w.counts (place b ts) ≡ some n
      → get_elem? (w.counts ++ (sum w.counts ∷ [])) (place b ts) ≡ some n
      → sum w.counts < b.max_total
      → Added b w ts (add_unless_full b (place b ts) n)
  unfolding add_unless_full
  add_unless_full-Added n after before g g' room = elim (Bool-cases (leb b.max_bucket n)) [
    | inl full ↦ refused (inr (inr (inr (n, g, ground (arith, full))))) (simp full refl)
    | inr open' ↦
        let i = place b ts in
        let counts' = set w.counts i (n + 1) in
        let inside : i < length w.counts =
          subst (λ k. i < k) (sym w.size) (place_lt b ts w.some_bucket) in
        let e : increment i b.buckets ≡ some (counts' ++ (sum w.counts ∷ [])) =
          ap (increment i) w.split ∙ increment-inside w.counts (sum w.counts) i n inside g' in
        let e' : increment b.sz (counts' ++ (sum w.counts ∷ []))
            ≡ some (counts' ++ ((sum w.counts + 1) ∷ [])) =
          ap (λ k. increment k (counts' ++ (sum w.counts ∷ [])))
            (sym (length-set w.counts i (n + 1) ∙ w.size))
          ∙ increment-last counts' (sum w.counts) in
        let more : sum counts' ≡ sum w.counts + 1 = sum-set w.counts i n g in
        (
          record b { buckets = counts' ++ ((sum w.counts + 1) ∷ []) },
          false,
          simp (open', e, e') refl,
          record {
            counts = counts';
            split = ap (λ t. counts' ++ (t ∷ [])) (sym more);
            size = length-set w.counts i (n + 1) ∙ w.size;
            some_bucket = w.some_bucket;
            bucket_limit =
                set-All b.max_bucket w.counts i (n + 1) (ground (arith, open')) w.bucket_limit;
            total_limit = omega (arith, more);
            width = w.width;
            end_small = w.end_small;
          },
          (λ f. absurd_test (sym f)),
          λ f. (after, before, room, (n, g, ground (arith, open'), refl)),
        )
  ]

  add_in_range-Added : b.start ≤ ts → ts ≤ b.end → Added b w ts (add_in_range b ts (sum w.counts))
  unfolding add_in_range test_total
  add_in_range-Added after before =
      elim (Bool-cases (leb b.max_total (sum w.counts) || b.sz == 0)) [
        | inl full ↦
            refused (inr (inr (inl (ground (arith, full, w.some_bucket))))) (simp full refl)
        | inr open' ↦
            let i = place b ts in
            let inside : i < length w.counts =
              subst (λ k. i < k) (sym w.size) (place_lt b ts w.some_bucket) in
            let (n, g', g) = get_elem?-inside w.counts (sum w.counts) i inside in
            let found : get_elem? b.buckets i ≡ some n = ap (λ xs. get_elem? xs i) w.split ∙ g' in
            let e : add_in_range b ts (sum w.counts) ≡ add_unless_full b i n =
              simp (open', bucket_lem b ts w after before, found) refl in
            subst (Added b w ts) (sym e)
              (add_unless_full-Added n after before g g' (ground (arith, open')))
      ]

-- Adding a time to a well-formed bucket set stays within the slice and keeps the set well-formed: the
-- last entry is the sum of the counts, and no count and no sum is above its limit. Where the result
-- is true the set is as before, and the time is out of the range, or the limit of the total or of the
-- time's bucket is reached. Otherwise none of this is so, and the count of just that bucket, and the
-- total, go up by one.
pub add_and_test-Added :
    (b : LimitedBucketSet) (ts : ℕ) (w : IsWell b) → Added b w ts (add_and_test b ts)
unfolding add_and_test len in_range
add_and_test-Added b ts w = elim (Bool-cases (in_range b ts)) [
  | inr out ↦ refused b w ts (outside out) (simp out refl)
  | inl in' ↦
      let total : len b ≡ some (sum w.counts) =
        ap (λ xs. get_elem? xs b.sz) w.split
        ∙ ap (get_elem? (w.counts ++ (sum w.counts ∷ []))) (sym w.size)
        ∙ get_elem?-last w.counts (sum w.counts) in
      let e : add_and_test b ts ≡ add_in_range b ts (sum w.counts) = simp (in', total) refl in
      subst (Added b w ts) (sym e)
        (add_in_range-Added b w ts (ground (arith, in')) (ground (arith, in')))
]
  where
    outside : in_range b ts ≡ false → Refuses b w.counts ts
    outside h = elim (Bool-cases (leb b.start ts)) [
      | inl after ↦ inr (inl (ground arith))
      | inr before ↦ inl (ground arith)
    ]

sum-make : (n : ℕ) → sum (make n) ≡ 0
sum-make zero = refl
sum-make (suc n) = omega (arith, sum-make n)

length-make : (n : ℕ) → length (make n) ≡ n
length-make zero = refl
length-make (suc n) = ap suc (length-make n)

make-suc : (n : ℕ) → make (suc n) ≡ make n ++ (0 ∷ [])
make-suc zero = refl
make-suc (suc n) = ap (λ xs. 0 ∷ xs) (make-suc n)

make-All : (m n : ℕ) → All (λ k. k ≤ m) (make n)
make-All m zero = tt
make-All m (suc n) = (omega arith, make-All m n)

number_of_buckets_positive : (exemplars : ℕ) → 0 < number_of_buckets exemplars
number_of_buckets_positive exemplars = ground arith

-- A new bucket set, for any number of exemplars and any range of uint64 times, is well-formed.
pub new_bucket_set-IsWell :
    (exemplars start end : ℕ) → end < word_mod → IsWell (new_bucket_set exemplars start end)
unfolding new_bucket_set
new_bucket_set-IsWell exemplars start end h =
    let n = number_of_buckets exemplars in
    let one_more : n + 1 ≡ suc n = omega arith in
    record {
      counts = make n;
      split = ap make one_more ∙ make-suc n ∙ ap (λ t. make n ++ (t ∷ [])) (sym (sum-make n));
      size = length-make n;
      some_bucket = number_of_buckets_positive exemplars;
      bucket_limit = make-All max_exemplars_per_bucket n;
      total_limit = omega (arith, sum-make n);
      width = omega arith;
      end_small = omega (arith, div-mul-le_self end nanos_per_milli, h);
    }
