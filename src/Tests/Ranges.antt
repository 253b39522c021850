-- ===== src/Tests/Ranges.antt =====
-- The theorems on time ranges at inputs that meet their hypotheses.
use traceql_syntax.Base.{
  is_negative, slt64, true, false, ℕ, ◌+◌, ◌≤◌, ◌<◌, none, some, ◌≡◌, refl, arith, ◌⊎◌, sub64,
}
use mathlib.Core.Bool.{xor}
use traceql_syntax.Range.{
  QueryRangeRequest, seconds, default_query_range_step, trim_to_block_overlap, first_granularity,
  step_for, finish_overlap, align_start, align_end,
}
use traceql_syntax.Range.Intervals.{query_range, query_range_mapper, interval, timestamp_of, count}
use traceql_syntax.Range.Intervals.Located.{interval_lem}
use traceql_syntax.Range.Trimmed.{trim_lem}

-- An hour has steps of 15 seconds.
step_of_hour : default_query_range_step (seconds 10) (seconds 3610) ≡ seconds 15
unfolding default_query_range_step step_for first_granularity sub64 xor
step_of_hour = refl

interval_lem_example :
    ((query_range_mapper 12 37 10).start < 25
      → 25 ≤ (query_range_mapper 12 37 10).end
      → (i : ℕ) × (interval (query_range (query_range_mapper 12 37 10)) 25 ≡ some i)
        × (is_negative i ≡ false)
        × (slt64 i (count (query_range (query_range_mapper 12 37 10))) ≡ true)
        × (25 ≤ timestamp_of (query_range (query_range_mapper 12 37 10)) i)
        × (timestamp_of (query_range (query_range_mapper 12 37 10)) i < 25 + 10))
    × ((25 ≤ (query_range_mapper 12 37 10).start) ⊎ ((query_range_mapper 12 37 10).end < 25)
        → interval (query_range (query_range_mapper 12 37 10)) 25 ≡ none)
    × ((query_range_mapper 12 37 10).start ≤ 12)
    × (37 ≤ (query_range_mapper 12 37 10).end)
unfolding query_range_mapper count
interval_lem_example =
    interval_lem 12 37 10 25 (omega arith) (omega arith) (omega arith) (omega arith)

interval_of_25 : interval (query_range (query_range_mapper 12 37 10)) 25 ≡ some 1
unfolding interval query_range_mapper
interval_of_25 = refl

abbrev request : QueryRangeRequest
request = record { start = seconds 100; end = seconds 200; step = seconds 10; instant = none }

trim_lem_example :
    ((t : ℕ)
      → request.start < t
      → t ≤ request.end
      → seconds 123 ≤ t
      → t < seconds 145 + seconds 1
      → ((trim_to_block_overlap request (seconds 123) (seconds 145)).start < t)
        × (t ≤ (trim_to_block_overlap request (seconds 123) (seconds 145)).end))
    × (request.start ≤ (trim_to_block_overlap request (seconds 123) (seconds 145)).start)
    × ((trim_to_block_overlap request (seconds 123) (seconds 145)).end ≤ request.end + 1)
    × (((trim_to_block_overlap request (seconds 123) (seconds 145)).start ≡ request.start)
        ⊎ (seconds 123
            ≤ (trim_to_block_overlap request (seconds 123) (seconds 145)).start + request.step))
    × ((trim_to_block_overlap request (seconds 123) (seconds 145)).end
        ≤ seconds 145 + seconds 1 + request.step)
trim_lem_example =
    trim_lem request (seconds 123) (seconds 145) (omega arith) (omega arith) (omega arith)
      (omega arith) (omega arith)

trimmed :
    trim_to_block_overlap request (seconds 123) (seconds 145)
    ≡ record { start = seconds 120; end = seconds 150; step = seconds 10 }
unfolding trim_to_block_overlap finish_overlap align_start align_end
trimmed = refl
