-- ===== src/Range/Aligned.antt =====
-- Alignment rounds the start of a range down and its end up, to multiples of the step.
use traceql_syntax.Base.{
  ℕ, ◌+◌, ◌-◌, ◌*◌, ◌/◌, ◌%◌, ◌≤◌, ◌<◌, false, ◌==◌, add64, word_mod, ◌≡◌, arith, Bool-cases, inl,
  inr,
}
use native.Mathlib.Nat.{div-add-mod, mod-lt}
use traceql_syntax.Range.{align_start, align_end}

module _ (t step : ℕ) (positive : 0 < step) where
  -- The multiple at or below `t`.
  pub align_start_bounds :
      (align_start t step false ≡ step * (t / step))
      × (align_start t step false ≤ t)
      × (t < align_start t step false + step)
  unfolding align_start
  align_start_bounds = ground (arith, div-add-mod t step, mod-lt t positive)

  -- The multiple at or above `t`, if it does not wrap around.
  pub align_end_bounds :
      t + step < word_mod
      → (k : ℕ) × (align_end t step false ≡ step * k)
        × (t ≤ align_end t step false)
        × (align_end t step false < t + step)
  unfolding align_end add64
  align_end_bounds h = elim (Bool-cases (t % step == 0)) [
    | inl exact ↦ (
      t / step,
      ground (arith, div-add-mod t step, mod-lt t positive, exact),
      ground (arith, exact),
      ground (arith, exact),
    )
    | inr over ↦
        let lt = mod-lt t positive in
        let e : align_end t step false ≡ t + (step - t % step) = ground (arith, over) in
        let rest : 0 < t % step = ground (arith, over) in
        (
          t / step + 1,
          omega (arith, e, div-add-mod t step, lt),
          omega (arith, e, lt),
          omega (arith, e, lt, rest),
        )
  ]
