-- ===== src/Range/Intervals/Located.antt =====
-- Each time of a range lies in one interval, which ends at the interval's time stamp.
use traceql_syntax.Base.{
  is_negative, slt64, sign_bit, biased, true, ℕ, zero, suc, ◌+◌, ◌-◌, ◌*◌, ◌/◌, ◌%◌, ◌≤◌, ◌<◌,
  false, ◌==◌, ==_iff, ◌≢◌, if◌then◌else◌, add64, sub64, mul64, word_mod, some, none, ◌≡◌, ◌∙◌,
  arith, Bool-cases, inl, inr, ◌⊎◌,
}
use native.Mathlib.Nat.{
  div-add-mod, mod-lt, mod-eq_of_lt, le-div_iff_mul-le, lt_of_mul-lt-mul_left, mul-le-mul_left,
}
use traceql_syntax.Range.{align_start, align_end}
use traceql_syntax.Range.Aligned.{align_start_bounds, align_end_bounds}
use traceql_syntax.Range.Intervals.{
  query_range, query_range_mapper, interval_of_offset, range_interval, is_range_ts_valid, interval,
  timestamp_of, count,
}

closed_right :
    (q r step offset : ℕ)
    → q * step + r ≡ offset
    → r < step
    → 0 < offset
    → ((if q * step == offset then q - 1 else q) * step < offset)
      × (offset ≤ (if q * step == offset then q - 1 else q) * step + step)
closed_right zero r step offset e h o = ground arith
closed_right (suc q) r step offset e h o = elim (Bool-cases (suc q * step == offset)) [
  | inl exact ↦
      let f : q * step + step ≡ offset = ground (arith, exact) in
      let g : suc q - 1 ≡ q = omega arith in rw (exact, g) (omega (arith, f, h), omega (arith, f))
  | inr over ↦
      let f : suc q * step ≢ offset = (λ x. cc (over, (==_iff (suc q * step) offset).1 x)) in
      rw over (omega (arith, e, f), omega (arith, e, h))
]

-- An offset lies in the interval that is computed for it, its end included.
interval_of_offset_bounds :
    (offset step : ℕ)
    → 0 < step
    → 0 < offset
    → offset < word_mod
    → (interval_of_offset offset step * step < offset)
      × (offset ≤ interval_of_offset offset step * step + step)
unfolding interval_of_offset mul64
interval_of_offset_bounds offset step p o b =
    let d = div-add-mod offset step in
    let small : offset / step * step % word_mod ≡ offset / step * step =
      mod-eq_of_lt (omega (arith, d)) in
    rw small (
      closed_right (offset / step) (offset % step) step offset (omega (arith, d)) (mod-lt offset p)
        o)

-- An interval that starts before a multiple of the step ends there at the latest.
interval_fits :
    (i a k step : ℕ) → i * step + step * a < step * k → i * step + step + step * a ≤ step * k
interval_fits i a k step h =
    let fewer : i + a < k = lt_of_mul-lt-mul_left step (omega (arith, h)) in
    omega (arith, mul-le-mul_left step fewer)

-- Time stamps within the range do not wrap around.
stamp_lem :
    (s i step : ℕ)
    → i < word_mod - 1
    → s + (i * step + step) < word_mod
    → add64 s (mul64 (add64 i 1) step) ≡ s + (i * step + step)
unfolding add64 mul64
stamp_lem s i step b h =
    let e : (i + 1) % word_mod ≡ i + 1 = mod-eq_of_lt (omega arith) in
    let f : (i + 1) * step % word_mod ≡ i * step + step =
      mod-eq_of_lt (omega (arith, h)) ∙ omega arith in
    rw (e, f) (mod-eq_of_lt h)

module _ (start end step ts : ℕ) (positive : 0 < step) (ordered : start ≤ end)
    (room : end + step < word_mod) where
  pub located :
      (query_range_mapper start end step).start < ts
      → ts ≤ (query_range_mapper start end step).end
      → (i : ℕ) × (interval (query_range (query_range_mapper start end step)) ts ≡ some i)
        × (i < count (query_range (query_range_mapper start end step)))
        × (ts ≤ timestamp_of (query_range (query_range_mapper start end step)) i)
        × (timestamp_of (query_range (query_range_mapper start end step)) i < ts + step)
  unfolding interval range_interval is_range_ts_valid timestamp_of count query_range_mapper add64
      sub64 mul64
  located after before =
      let (start_eq, start_le, start_near) = align_start_bounds start step positive in
      let (k, end_eq, end_le, end_near) = align_end_bounds end step positive room in
      let S = align_start start step false in
      let E = align_end end step false in
      let i = interval_of_offset (ts - S) step in
      let (below, above) =
        interval_of_offset_bounds (ts - S) step positive (omega arith) (omega arith) in
      let fits : i * step + step + step * (start / step) ≤ step * k =
        interval_fits i (start / step) k step (omega (arith, below, start_eq, end_eq)) in
      let width : sub64 E S ≡ E - S = ground arith in
      let few : i ≤ i * step = omega (arith, mul-le-mul_left i positive) in
      let stamp : add64 S (mul64 (add64 i 1) step) ≡ S + (i * step + step) =
        stamp_lem S i step (omega (arith, below, few))
          (omega (arith, fits, start_eq, end_eq, end_near)) in
      (
        i,
        ground arith,
        rw width ((le-div_iff_mul-le positive).1 (omega (arith, fits, start_eq, end_eq))),
        rw stamp (omega (arith, above)),
        rw stamp (omega (arith, below)),
      )

  pub outside :
      (ts ≤ (query_range_mapper start end step).start)
        ⊎ ((query_range_mapper start end step).end < ts)
      → interval (query_range (query_range_mapper start end step)) ts ≡ none
  unfolding interval range_interval is_range_ts_valid query_range_mapper
  outside (inl before) = ground arith
  outside (inr after) = ground arith

-- Of two ints from 0 on the patterns decide.
signed_lt : (i n : ℕ) → i < n → n < sign_bit → slt64 i n ≡ true
signed_lt i n h k =
    let e : biased i ≡ i + sign_bit = mod-eq_of_lt (omega (arith, h, k)) in
    let f : biased n ≡ n + sign_bit = mod-eq_of_lt (omega (arith, k)) in
    rw (e, f) (ground (arith, h))

-- For a step above 0, a range that ends no earlier than it starts, and whose end is a step away
-- from the largest uint64 at least, and a count of intervals that is no int below 0: a time after
-- the aligned start, and at the aligned end at the latest, lies in an interval from 0 on and below
-- the count, whose time stamp is the time or less than a step later; and any other time lies in
-- none. The aligned range contains the range.
pub interval_lem :
    (start end step ts : ℕ)
    → 0 < step
    → start ≤ end
    → end + step < word_mod
    → count (query_range (query_range_mapper start end step)) < sign_bit
    → ((query_range_mapper start end step).start < ts
        → ts ≤ (query_range_mapper start end step).end
        → (i : ℕ) × (interval (query_range (query_range_mapper start end step)) ts ≡ some i)
          × (is_negative i ≡ false)
          × (slt64 i (count (query_range (query_range_mapper start end step))) ≡ true)
          × (ts ≤ timestamp_of (query_range (query_range_mapper start end step)) i)
          × (timestamp_of (query_range (query_range_mapper start end step)) i < ts + step))
      × ((ts ≤ (query_range_mapper start end step).start)
            ⊎ ((query_range_mapper start end step).end < ts)
          → interval (query_range (query_range_mapper start end step)) ts ≡ none)
      × ((query_range_mapper start end step).start ≤ start)
      × (end ≤ (query_range_mapper start end step).end)
unfolding query_range_mapper
interval_lem start end step ts positive ordered room int = (
  (λ after before.
      let (i, at, below, early, late) =
        located start end step ts positive ordered room after before in
      (i, at, ground (arith, below, int), signed_lt i _ below int, early, late)),
  outside start end step ts positive ordered room,
  (align_start_bounds start step positive).1,
  (align_end_bounds end step positive room).2,
)
