-- ===== src/Range/Steps.antt =====
-- The step that a query has by default, compared to the length of its range.
use traceql_syntax.Base.{
  ℕ, ◌+◌, ◌-◌, ◌*◌, ◌/◌, ◌%◌, ◌≤◌, ◌<◌, true, false, List, [], ◌∷◌, All, ltb, leb, sub64, mul64,
  div64, neg64, slt64, sign_bit, word_mod, ◌≡◌, ◌∙◌, arith, Bool-cases, inl, inr,
}
use mathlib.Core.Bool.{xor}
use native.Mathlib.Nat.{
  mod-eq_of_lt, le-div_iff_mul-le, mul-le-mul_right, div-mul-le_self, lt-div-mul-add, div-le_self,
}
use traceql_syntax.Range.{
  first_granularity, granularities, round_to, seconds, milliseconds, step_for,
  default_query_range_step,
}

-- On ints that are not negative the signed operations are those of the numbers.
slt64_small : (a b : ℕ) → a < sign_bit → b < sign_bit → slt64 a b ≡ ltb a b
slt64_small a b h k = ground arith

div64_small : (a b : ℕ) → a < sign_bit → b < sign_bit → div64 a b ≡ a / b
unfolding div64 neg64 xor
div64_small a b h k =
    let e : leb sign_bit a ≡ false = ground arith in
    let f : leb sign_bit b ≡ false = ground arith in
    let s : a / b % word_mod ≡ a / b =
      mod-eq_of_lt {m = word_mod} (omega (arith, div-le_self a b)) in
    rw (e, f) s

-- A baseline rounded down to a granularity below it loses less than half.
round_bounds :
    (b g : ℕ)
    → b < sign_bit
    → 0 < g
    → g < b
    → (g ≤ round_to b g) × (round_to b g ≤ b) × (b < 2 * round_to b g)
unfolding round_to mul64
round_bounds b g small positive below =
    let d : div64 b g ≡ b / g = div64_small b g small (omega arith) in
    let one : 1 ≤ b / g = (le-div_iff_mul-le {k = g} {x = 1} {y = b} positive).1 (omega arith) in
    let low : g ≤ b / g * g = omega (arith, mul-le-mul_right g one) in
    let near : b < b / g * g + g = lt-div-mul-add positive in
    let fits : b / g * g ≤ b = div-mul-le_self b g in
    let e : round_to b g ≡ b / g * g = rw d (mod-eq_of_lt {m = word_mod} (omega (arith, fits))) in
    rw e (low, fits, omega (arith, low, near))

-- The loop over granularities of a second at least: the result is a second at least, and more than
-- half of the baseline, if some granularity is not above it or it is below two seconds.
first_granularity_bounds :
    (b : ℕ)
    → (gs : List ℕ) → b < sign_bit
    → All (λ g. (seconds 1 ≤ g) × (g < sign_bit)) gs
    → (All (λ g. b ≤ g) gs → b < 2 * seconds 1)
    → (seconds 1 ≤ first_granularity b gs) × (b < 2 * first_granularity b gs)
unfolding first_granularity
first_granularity_bounds b [] small sound rest = (omega arith, rest tt)
first_granularity_bounds b (g ∷ gs) small ((low, high), sound) rest = elim (Bool-cases (ltb g b)) [
  | inl below ↦
      let t : slt64 g b ≡ true = slt64_small g b high small ∙ below in
      let (least, _, near) = round_bounds b g small (omega (arith, low)) (ground (arith, below)) in
      rw t (omega (arith, low, least), near)
  | inr above ↦
      let t : slt64 g b ≡ false = slt64_small g b high small ∙ above in
      let over : b ≤ g = ground (arith, above) in
      rw t (first_granularity_bounds b gs small sound (λ others. rest (over, others)))
]

granularities_bounds : All (λ g. (seconds 1 ≤ g) × (g < sign_bit)) granularities
granularities_bounds = grind arith

step_for_bounds :
    (delta : ℕ)
    → delta < sign_bit
    → (milliseconds 50 ≤ step_for delta) × (delta < 480 * step_for delta)
unfolding step_for
step_for_bounds delta short =
    let b = delta / 240 in
    let d : div64 delta 240 ≡ b = div64_small delta 240 short (omega arith) in
    let near : delta < b * 240 + 240 = lt-div-mul-add (omega arith) in
    let small : b < sign_bit = omega (arith, short, div-le_self delta 240) in
    let fine : slt64 delta (seconds 60) ≡ ltb delta (seconds 60) =
      slt64_small delta (seconds 60) short (omega arith) in
    let tiny : slt64 (milliseconds 50) b ≡ ltb (milliseconds 50) b =
      slt64_small (milliseconds 50) b (omega arith) small in
    rw d (elim (Bool-cases (ltb delta (seconds 60))) [
      | inl brief ↦ elim (Bool-cases (ltb (milliseconds 50) b)) [
        | inl above ↦
            let (least, _, half) =
              round_bounds b (milliseconds 50) small (omega arith) (ground (arith, above)) in
            rw (fine, brief, tiny, above) (least, omega (arith, half, near))
        | inr below ↦
            let low : b ≤ milliseconds 50 = ground (arith, below) in
            rw (fine, brief, tiny, below) (omega arith, omega (arith, low, near))
      ]
      | inr long ↦
          let (least, half) =
            first_granularity_bounds b granularities small granularities_bounds
              (λ (_, (_, (_, (_, (_, (least, _)))))). omega (arith, least)) in
          rw (fine, long) (omega (arith, least), omega (arith, half, near))
    ])

-- A range shorter than 2 ^ 63 nanoseconds.
default_step_bounds :
    (start end : ℕ)
    → start ≤ end
    → end < word_mod
    → end - start < sign_bit
    → (milliseconds 50 ≤ default_query_range_step start end)
      × (end - start < 480 * default_query_range_step start end)
unfolding default_query_range_step sub64
default_step_bounds start end ordered word short =
    let e : (end + word_mod - start) % word_mod ≡ end - start = ground arith in
    rw e (step_for_bounds (end - start) short)
