-- ===== src/Collector.antt =====
-- internal/collector/distinct_string_collector.go: the collector of distinct strings. The maps of
-- strings are lists without duplicates, the latest string first. Each method holds the lock from its
-- start to its end, so it is one step. Sizes are those of data in memory, and do not overflow an int;
-- a limit below 0 counts as no limit, as 0 does.
pub mod Limits
pub mod Diffs
pub mod Scoped
pub mod Cols
pub mod Scopes
pub mod Distinct
pub mod Agrees
use traceql_syntax.Base.{
  ℕ, ◌+◌, ◌%◌, ◌^◌, Bool, true, false, ◌&&◌, List, [], ◌∷◌, any, Option, none, some, Text, list_eq,
  list_compare, Ordering, length, ltb, leb, if◌then◌else◌,
}

-- The stop reason, with the numbers that its text names.
pub data Stop : Type 0 where
  max_data_exceeded max_values_exceeded max_stale_values_exceeded : ℕ → ℕ → Stop

pub record DistinctString : Type 0 where
  pub values : List Text
  pub new : List Text
  pub max_data_size : ℕ
  pub curr_data_size : ℕ
  pub current_values_len : ℕ
  pub max_values : ℕ
  pub max_cache_hits : ℕ
  pub current_cache_hits : ℕ
  pub diff_enabled : Bool
  pub lim_exceeded : Bool
  pub stop_reason : Option Stop

abbrev pub new_collector : Bool → ℕ → ℕ → ℕ → DistinctString
new_collector diff max_data max_vals stale = record {
  values = [];
  new = [];
  max_data_size = max_data;
  curr_data_size = 0;
  current_values_len = 0;
  max_values = max_vals;
  max_cache_hits = stale;
  current_cache_hits = 0;
  diff_enabled = diff;
  lim_exceeded = false;
  stop_reason = none;
}

abbrev pub new_distinct_string : ℕ → ℕ → ℕ → DistinctString
new_distinct_string = new_collector false

abbrev pub new_distinct_string_with_diff : ℕ → ℕ → ℕ → DistinctString
new_distinct_string_with_diff = new_collector true

unfoldable pub contains : Text → List Text → Bool
unfolding any list_eq
contains s ts = any (list_eq s) ts

-- A uint32 counter.
abbrev pub succ32 : ℕ → ℕ
succ32 n = (n + 1) % 2 ^ 32

-- The first limit that the collector has reached, for a string of the length.
unfoldable pub reached : DistinctString → ℕ → Option Stop
reached d value_len =
    if ltb 0 d.max_data_size && leb d.max_data_size (d.curr_data_size + value_len)
    then some (max_data_exceeded d.curr_data_size d.max_data_size)
    else if ltb 0 d.max_values && leb d.max_values d.current_values_len
    then some (max_values_exceeded d.current_values_len d.max_values)
    else if ltb 0 d.max_cache_hits && leb d.max_cache_hits d.current_cache_hits
    then some (max_stale_values_exceeded d.current_values_len d.max_cache_hits)
    else none

unfoldable pub exceed : Stop → DistinctString → DistinctString
exceed reason d = record d { stop_reason = some reason; lim_exceeded = true }

unfoldable pub hit : DistinctString → DistinctString
hit d = record d { current_cache_hits = succ32 d.current_cache_hits }

unfoldable pub add_value : Text → DistinctString → DistinctString
add_value s d = record d {
  current_cache_hits = 0;
  new = if d.diff_enabled then s ∷ d.new else d.new;
  values = s ∷ d.values;
  curr_data_size = d.curr_data_size + length s;
  current_values_len = succ32 d.current_values_len;
}

-- The end of Collect, where no limit is reached.
unfoldable pub collect_value : Text → DistinctString → DistinctString × Bool
unfolding contains hit add_value
collect_value s d = if contains s d.values then (hit d, false) else (add_value s d, true)

-- The new state, and whether the string was added.
unfoldable pub collect : Text → DistinctString → DistinctString × Bool
unfolding reached exceed collect_value
collect s d = if d.lim_exceeded then (d, false) else elim (reached d (length s)) [
  | some reason ↦ (exceed reason d, false)
  | none ↦ collect_value s d
]

-- sort.Strings
unfoldable pub insert : Text → List Text → List Text
unfolding list_compare
insert s [] = s ∷ []
insert s (t ∷ ts) = elim (list_compare s t) [
  | Ordering.gt ↦ t ∷ insert s ts
  | Ordering.lt ↦ s ∷ t ∷ ts
  | Ordering.eq ↦ s ∷ t ∷ ts
]

unfoldable pub sorted : List Text → List Text
unfolding insert
sorted [] = []
sorted (t ∷ ts) = insert t (sorted ts)

unfoldable pub strings : DistinctString → List Text
unfolding sorted
strings d = sorted d.values

-- The strings since the last call, or `none` for the error that diffs are not enabled.
unfoldable pub diff : DistinctString → DistinctString × Option (List Text)
unfolding sorted
diff d = if d.diff_enabled then (record d { new = [] }, some (sorted d.new)) else (d, none)
