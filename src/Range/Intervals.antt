-- ===== src/Range/Intervals.antt =====
-- traceql/engine_metrics.go: the intervals of a range query. The int of a uint64 is its pattern, which
-- stands for an int below 0 from 2 ^ 63 on. An interval of -1, for a time out of the range, is `none`;
-- so is a mapper where its construction divides by a step of 0.
pub mod Located
use traceql_syntax.Base.{
  ℕ, ◌+◌, ◌-◌, ◌*◌, ◌/◌, ◌%◌, Bool, true, false, not, ◌&&◌, Option, none, some, ltb, leb, ◌==◌,
  add64, sub64, mul64, if◌then◌else◌,
}
use traceql_syntax.Range.{QueryRangeRequest, is_instant, align_start, align_end, milliseconds}

pub record QueryRangeMapper : Type 0 where
  pub start : ℕ
  pub end : ℕ
  pub step : ℕ
  pub start_ms : ℕ
  pub end_ms : ℕ
  -- the pattern of an int, which may be below 0
  pub interval_count : ℕ

pub record InstantMapper : Type 0 where
  pub start : ℕ
  pub end : ℕ
  pub start_ms : ℕ
  pub end_ms : ℕ

pub data IntervalMapper : Type 0 where
  query_range : QueryRangeMapper → IntervalMapper
  instant_range : InstantMapper → IntervalMapper

abbrev pub to_ms : ℕ → ℕ
to_ms t = t - t % milliseconds 1

unfoldable pub query_range_mapper : ℕ → ℕ → ℕ → QueryRangeMapper
unfolding align_start align_end sub64
query_range_mapper start end step =
    let start' = align_start start step false in
    let end' = align_end end step false in
    record {
      start = start';
      end = end';
      step = step;
      start_ms = align_start (to_ms start) step false;
      end_ms = align_end (to_ms end) step false;
      interval_count = sub64 end' start' / step;
    }

unfoldable pub new_interval_mapper : ℕ → ℕ → ℕ → Bool → Option IntervalMapper
unfolding query_range_mapper
new_interval_mapper start end step instant =
    if instant
    then some (
        instant_range
          (record { start = start; end = end; start_ms = to_ms start; end_ms = to_ms end }))
    else if step == 0
    then none
    else some (query_range (query_range_mapper start end step))

unfoldable pub new_interval_mapper_from_req : QueryRangeRequest → Option IntervalMapper
unfolding new_interval_mapper is_instant
new_interval_mapper_from_req req = new_interval_mapper req.start req.end req.step (is_instant req)

unfoldable pub is_range_ts_valid : ℕ → ℕ → ℕ → ℕ → Bool
is_range_ts_valid ts start end step =
    ltb start ts && (leb ts end && (not (end == start) && not (step == 0)))

-- The interval of an offset from the start, as the pattern of an int; one on a boundary belongs to the
-- interval before. The pattern of -1 does not come of it.
unfoldable pub interval_of_offset : ℕ → ℕ → ℕ
unfolding mul64
interval_of_offset offset step =
    let interval = offset / step in if mul64 interval step == offset then interval - 1 else interval

unfoldable pub range_interval : ℕ → ℕ → ℕ → ℕ → Option ℕ
unfolding is_range_ts_valid interval_of_offset
range_interval ts start end step =
    if not (is_range_ts_valid ts start end step)
    then none
    else some (if leb ts start then 0 else interval_of_offset (ts - start) step)

unfoldable pub instant_interval : ℕ → ℕ → ℕ → Option ℕ
instant_interval ts start end =
    if leb start ts && (leb ts end && not (end == start)) then some 0 else none

unfoldable pub interval : IntervalMapper → ℕ → Option ℕ
unfolding range_interval instant_interval
interval (query_range m) ts = range_interval ts m.start m.end m.step
interval (instant_range m) ts = instant_interval ts m.start m.end

-- The milliseconds are an int64, and their product with a million wraps around.
unfoldable pub interval_ms : IntervalMapper → ℕ → Option ℕ
unfolding range_interval instant_interval mul64
interval_ms (query_range m) ms =
    range_interval (mul64 ms (milliseconds 1)) m.start_ms m.end_ms m.step
interval_ms (instant_range m) ms = instant_interval (mul64 ms (milliseconds 1)) m.start_ms m.end_ms

unfoldable pub timestamp_of : IntervalMapper → ℕ → ℕ
unfolding add64 mul64
timestamp_of (query_range m) i = add64 m.start (mul64 (add64 i 1) m.step)
timestamp_of (instant_range m) i = m.end

-- The pattern of an int.
unfoldable pub count : IntervalMapper → ℕ
count (query_range m) = m.interval_count
count (instant_range m) = 1
