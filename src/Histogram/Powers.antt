-- ===== src/Histogram/Powers.antt =====
-- The bucket of a value is the least power of two that is not below it.
use traceql_syntax.Base.{
  ℕ, zero, suc, ◌-◌, ◌*◌, ◌/◌, ◌%◌, ◌^◌, ◌≤◌, ◌<◌, false, none, some, ltb, ◌==◌, word_mod, sign_bit,
  ◌≡◌, refl, arith, Bool-cases, inl, inr,
}
use native.Mathlib.Nat.{mod-eq_of_lt, div-add-mod, mod-lt, pow-succ', pow-le-pow_right}
use traceql_syntax.Histogram.{bit_length, log2_bucketize}

bit_length-zero : (fuel : ℕ) → bit_length fuel 0 ≡ 0
unfolding bit_length
bit_length-zero zero = refl
bit_length-zero (suc fuel) = refl

-- Enough fuel: the value lies between the powers of its length.
bit_length_bounds :
    (fuel n : ℕ)
    → n < 2 ^ fuel
    → 0 < n
    → (k : ℕ) × (bit_length fuel n ≡ suc k) × (2 ^ k ≤ n) × (n < 2 ^ suc k)
unfolding bit_length
bit_length_bounds zero n h p = absurd (omega (arith, h))
bit_length_bounds (suc fuel) n h p =
    let nonzero : (n == 0) ≡ false = ground arith in
    let half = div-add-mod n 2 in
    let rest : n % 2 < 2 = mod-lt n (omega arith) in
    elim (Bool-cases (n / 2 == 0)) [
      | inl last ↦
          let e : n / 2 ≡ 0 = ground (arith, last) in
          (0, rw (nonzero, e, bit_length-zero fuel) refl, omega arith, omega (arith, half, rest, e))
      | inr more ↦
          let (k, e, low, high) =
            bit_length_bounds fuel (n / 2) (omega (arith, half, pow-succ' 2 fuel, h))
              (ground (arith, more)) in
          (
            suc k,
            rw (nonzero, e) refl,
            omega (arith, half, pow-succ' 2 k, low),
            omega (arith, half, rest, pow-succ' 2 (suc k), high),
          )
    ]

-- The length of a number of 64 bits whose highest bit is set.
highest : (k n : ℕ) → 2 ^ k ≤ n → n < 2 ^ suc k → sign_bit ≤ n → n < word_mod → k ≡ 63
highest k n low high from to = elim (Bool-cases (ltb k 63)) [
  | inl less ↦
      let small : 2 ^ suc k ≤ 2 ^ 63 =
        pow-le-pow_right (omega arith) {i = suc k} {j = 63} (ground (arith, less)) in
      absurd (omega (arith, small, high, from))
  | inr not_less ↦ elim (Bool-cases (ltb 63 k)) [
    | inl more ↦
        let large : 2 ^ 64 ≤ 2 ^ k =
          pow-le-pow_right (omega arith) {i = 64} {j = k} (ground (arith, more)) in
        absurd (omega (arith, large, low, to))
    | inr not_more ↦ ground (arith, not_less, not_more)
  ]
]

-- A value from 2 to 2 ^ 63 is put into the bucket of the least power of two that is not below it;
-- a greater uint64 into bucket 0, since the shift by 64 leaves nothing; and 0 and 1 into none.
pub log2_bucketize-least :
    (v : ℕ)
    → v < word_mod
    → (2 ≤ v
        → v ≤ sign_bit
        → (k : ℕ) × (log2_bucketize v ≡ some (2 ^ k)) × (v ≤ 2 ^ k) × (2 ^ k < 2 * v))
      × (sign_bit < v → log2_bucketize v ≡ some 0)
      × (v < 2 → log2_bucketize v ≡ none)
unfolding log2_bucketize
log2_bucketize-least v word = (
  (λ from to.
      let big : ltb v 2 ≡ false = ground arith in
      let (k, e, low, high) = bit_length_bounds 64 (v - 1) (omega arith) (omega arith) in
      let double : 2 ^ suc k ≡ 2 * 2 ^ k = pow-succ' 2 k in
      let fits : 2 ^ suc k % word_mod ≡ 2 ^ suc k =
        mod-eq_of_lt {m = word_mod} (omega (arith, double, low)) in
      (suc k, rw (big, e, fits) refl, omega (arith, high), omega (arith, double, low))),
  (λ over.
      let big : ltb v 2 ≡ false = ground arith in
      let (k, e, low, high) = bit_length_bounds 64 (v - 1) (omega arith) (omega arith) in
      let top : k ≡ 63 = highest k (v - 1) low high (omega arith) (omega arith) in
      rw (big, e, top) refl),
  λ under. ground arith,
)
