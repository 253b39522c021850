-- ===== src/Range/Trimmed.antt =====
-- The part of a request's range that a block has times in.
use traceql_syntax.Base.{
  ℕ, ◌+◌, ◌-◌, ◌≤◌, ◌<◌, min, max, Bool, true, false, add64, sub64, word_mod, ◌≡◌, refl, arith, leb,
  ◌⊎◌, inl, inr, Bool-cases,
}
use native.Mathlib.Nat.{mod-eq_of_lt}
use traceql_syntax.Range.{
  QueryRangeRequest, seconds, finish_overlap, trim_to_block_overlap, is_instant, align_start,
  align_end,
}
use traceql_syntax.Range.Aligned.{align_start_bounds, align_end_bounds}

-- An instant query is not aligned, and otherwise the alignment goes outwards, by less than a step.
start_outwards :
    (start step : ℕ) (instant : Bool)
    → 0 < step
    → (align_start start step instant ≤ start) × (start < align_start start step instant + step)
unfolding align_start
start_outwards start step true positive = ground arith
start_outwards start step false positive =
    let (eq, le, near) = align_start_bounds start step positive in (le, near)

end_outwards :
    (end step : ℕ) (instant : Bool)
    → 0 < step
    → end + step < word_mod
    → (end ≤ align_end end step instant) × (align_end end step instant < end + step)
unfolding align_end
end_outwards end step true positive room = ground arith
end_outwards end step false positive room =
    let (k, eq, le, near) = align_end_bounds end step positive room in (le, near)

finish_bounds :
    (req : QueryRangeRequest)
    → (start end : ℕ) → end + 1 < word_mod
    → ((finish_overlap req start end).start ≡ start)
      × (end ≤ (finish_overlap req start end).end)
      × ((finish_overlap req start end).end ≤ end + 1)
unfolding finish_overlap
finish_bounds req start end room =
    let e : add64 end 1 ≡ end + 1 = mod-eq_of_lt {m = word_mod} room in
    (refl, ground (arith, e), ground (arith, e))

-- For a step above 0 and times that stay below the largest uint64, the one of the request by 1 and
-- that of the block by a second and a step, and for a block that starts at 1 at the earliest: each
-- time after the start of the request, at its end at the latest, that the block may have, which is
-- from its start on and before the second that follows its end, is after the start of the overlap
-- and at its end at the latest. The overlap is within the request, but for 1 at its end; it starts
-- with the request or less than a step and 1 before the block, and ends within a second and a step
-- after the block's end.
pub trim_lem :
    (req : QueryRangeRequest)
    → (block_start block_end : ℕ) → 0 < req.step
    → req.end + 1 < word_mod
    → 1 ≤ block_start
    → block_start < word_mod
    → block_end + seconds 1 + req.step < word_mod
    → ((t : ℕ)
        → req.start < t
        → t ≤ req.end
        → block_start ≤ t
        → t < block_end + seconds 1
        → ((trim_to_block_overlap req block_start block_end).start < t)
          × (t ≤ (trim_to_block_overlap req block_start block_end).end))
      × (req.start ≤ (trim_to_block_overlap req block_start block_end).start)
      × ((trim_to_block_overlap req block_start block_end).end ≤ req.end + 1)
      × (((trim_to_block_overlap req block_start block_end).start ≡ req.start)
          ⊎ (block_start ≤ (trim_to_block_overlap req block_start block_end).start + req.step))
      × ((trim_to_block_overlap req block_start block_end).end ≤ block_end + seconds 1 + req.step)
unfolding trim_to_block_overlap sub64 add64
trim_lem req block_start block_end positive room one word far =
    let instant = is_instant req in
    let b : sub64 block_start 1 ≡ block_start - 1 = ground arith in
    let e : add64 block_end (seconds 1) ≡ block_end + seconds 1 =
      mod-eq_of_lt {m = word_mod} (omega arith) in
    let (low, low_near) = start_outwards (block_start - 1) req.step instant positive in
    let (high, high_near) = end_outwards (block_end + seconds 1) req.step instant positive far in
    let start = max req.start (align_start (block_start - 1) req.step instant) in
    let end = min req.end (align_end (block_end + seconds 1) req.step instant) in
    let (same, least, most) = finish_bounds req start end (omega arith) in
    rw (b, e, same)
      (
        (λ t after before from to.
            (omega (arith, low, after, from), omega (arith, least, high, before, to))),
        omega arith,
        omega (arith, most),
        starts req.start (align_start (block_start - 1) req.step instant) (omega (arith, low_near)),
        omega (arith, most, high_near),
      )
  where
    starts :
        (s a : ℕ) → block_start ≤ a + req.step → (max s a ≡ s) ⊎ (block_start ≤ max s a + req.step)
    starts s a h = elim (Bool-cases (leb a s)) [
      | inl first ↦ inl (ground (arith, first))
      | inr second ↦ inr (ground (arith, second, h))
    ]
