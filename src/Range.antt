-- ===== src/Range.antt =====
-- traceql/engine_metrics.go: the time range of a metrics query, its step and its alignment. Times are
-- uint64 nanoseconds; of a request, the fields that these functions read. A request with an instant
-- flag has it in `instant` (HasInstant and GetInstant, tempopb/utils.go).
pub mod Intervals
pub mod Aligned
pub mod Steps
pub mod Trimmed
use traceql_syntax.Base.{
  ℕ, ◌+◌, ◌-◌, ◌*◌, ◌/◌, ◌%◌, min, max, Bool, true, false, not, ◌&&◌, List, [], ◌∷◌, Option, none,
  some, ltb, ◌==◌, add64, sub64, mul64, div64, slt64, if◌then◌else◌,
}

pub record QueryRangeRequest : Type 0 where
  pub start : ℕ
  pub end : ℕ
  pub step : ℕ
  pub instant : Option Bool

abbrev pub has_instant : QueryRangeRequest → Bool
has_instant req = elim req.instant [ none ↦ false | some b ↦ true ]

abbrev pub milliseconds : ℕ → ℕ
milliseconds n = n * 1000000

abbrev pub seconds : ℕ → ℕ
seconds n = n * 1000000000

-- A duration rounded down to a multiple of another.
unfoldable pub round_to : ℕ → ℕ → ℕ
unfolding div64 mul64
round_to d g = mul64 (div64 d g) g

-- The loop over the granularities.
unfoldable pub first_granularity : ℕ → List ℕ → ℕ
unfolding round_to
first_granularity baseline [] = seconds 1
first_granularity baseline (g ∷ gs) =
    if slt64 g baseline then round_to baseline g else first_granularity baseline gs

abbrev pub granularities : List ℕ
granularities = seconds 3600 ∷ seconds 300 ∷ seconds 60 ∷ seconds 15 ∷ seconds 5 ∷ seconds 1 ∷ []

-- The step for a delta, a signed duration.
unfoldable pub step_for : ℕ → ℕ
step_for delta =
    let baseline = div64 delta 240 in
    if slt64 delta (seconds 60)
    then (if slt64 (milliseconds 50) baseline
        then round_to baseline (milliseconds 50)
        else milliseconds 50)
    else first_granularity baseline granularities

unfoldable pub default_query_range_step : ℕ → ℕ → ℕ
default_query_range_step start end = step_for (sub64 end start)

unfoldable pub is_instant : QueryRangeRequest → Bool
unfolding sub64
is_instant req = elim req.instant [ some b ↦ b | none ↦ sub64 req.end req.start == req.step ]

unfoldable pub align_start : ℕ → ℕ → Bool → ℕ
align_start start step instant =
    if step == 0 then 0 else if instant then start else start - start % step

unfoldable pub align_end : ℕ → ℕ → Bool → ℕ
unfolding add64
align_end end step instant =
    if step == 0
    then 0
    else if instant
    then end
    else if end % step == 0
    then end
    else add64 end (step - end % step)

-- The start goes one step further back, where it can.
unfoldable pub extra_step : ℕ → ℕ → ℕ
extra_step start step = if ltb step start then start - step else start

unfoldable pub align_request : QueryRangeRequest → QueryRangeRequest
unfolding is_instant align_start align_end extra_step
align_request req = if is_instant req then req else record req {
  start = extra_step (align_start req.start req.step false) req.step;
  end = align_end req.end req.step false;
}

unfoldable pub align_end_to_left : QueryRangeRequest → QueryRangeRequest
unfolding is_instant
align_end_to_left req =
    if is_instant req
    then req
    else if req.step == 0
    then req
    else record req { end = req.end - req.end % req.step }

-- The step of an instant query without a flag, which is that of the range, after the range changed.
unfoldable pub restore_step : Bool → QueryRangeRequest → QueryRangeRequest
unfolding is_instant sub64
restore_step was_instant req =
    if not (has_instant req) && (was_instant && not (is_instant req))
    then record req { step = sub64 req.end req.start }
    else req

unfoldable pub trim_to_before : QueryRangeRequest → ℕ → QueryRangeRequest
unfolding is_instant restore_step
trim_to_before req before_ns =
    restore_step (is_instant req)
      (record req { start = min req.start before_ns; end = min req.end before_ns })

unfoldable pub trim_to_after : QueryRangeRequest → ℕ → QueryRangeRequest
unfolding is_instant restore_step
trim_to_after req before_ns =
    restore_step (is_instant req)
      (record req { start = max req.start before_ns; end = max req.end before_ns })

pub record Overlap : Type 0 where
  pub start : ℕ
  pub end : ℕ
  pub step : ℕ

-- The end of TrimToBlockOverlap, for the range that overlaps.
unfoldable pub finish_overlap : QueryRangeRequest → ℕ → ℕ → Overlap
unfolding is_instant sub64 add64
finish_overlap req start end =
    let step = if not (has_instant req) && is_instant req then sub64 end start else req.step in
    let was_assumed_range = not (has_instant req) && not (is_instant req) in
    record {
      start = start;
      end = if was_assumed_range && sub64 end start == step then add64 end 1 else end;
      step = step;
    }

-- The times of the block are those of UnixNano.
unfoldable pub trim_to_block_overlap : QueryRangeRequest → ℕ → ℕ → Overlap
trim_to_block_overlap req block_start block_end =
    let start2 = align_start (sub64 block_start 1) req.step (is_instant req) in
    let end2 = align_end (add64 block_end (seconds 1)) req.step (is_instant req) in
    finish_overlap req (max req.start start2) (min req.end end2)
