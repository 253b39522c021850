-- ===== src/Collector/Distinct.antt =====
-- internal/collector/distinct_value_collector.go: the collector of distinct values of any type, with its
-- equality and what a value counts for. As with strings (Collector), the maps are lists without
-- duplicates, and each method is one step; the sizes do not overflow an int.
use traceql_syntax.Base.{
  ℕ, ◌+◌, Bool, true, false, ◌&&◌, List, [], ◌∷◌, any, Option, none, some, ltb, leb, if◌then◌else◌,
}
use traceql_syntax.Collector.{
  Stop, max_data_exceeded, max_values_exceeded, max_stale_values_exceeded, succ32,
}

pub record DistinctValue (V : Type 0) : Type 0 where
  pub values : List V
  pub new : List V
  pub max_data_size : ℕ
  pub curr_data_size : ℕ
  pub current_values_len : ℕ
  pub max_values : ℕ
  pub max_cache_hits : ℕ
  pub current_cache_hits : ℕ
  pub diff_enabled : Bool
  pub lim_exceeded : Bool
  pub stop_reason : Option Stop

-- Without and with diffs.
unfoldable pub new_distinct_value : {V : Type 0} → Bool → ℕ → ℕ → ℕ → DistinctValue V
new_distinct_value diff max_data max_vals stale = record {
  values = [];
  new = [];
  max_data_size = max_data;
  curr_data_size = 0;
  current_values_len = 0;
  max_values = max_vals;
  max_cache_hits = stale;
  current_cache_hits = 0;
  diff_enabled = diff;
  lim_exceeded = false;
  stop_reason = none;
}

-- The first limit that the collector has reached, for a value that counts for so much.
unfoldable pub value_limit : {V : Type 0} → DistinctValue V → ℕ → Option Stop
value_limit d value_len =
    if ltb 0 d.max_data_size && leb d.max_data_size (d.curr_data_size + value_len)
    then some (max_data_exceeded d.curr_data_size d.max_data_size)
    else if ltb 0 d.max_values && leb d.max_values d.current_values_len
    then some (max_values_exceeded d.current_values_len d.max_values)
    else if ltb 0 d.max_cache_hits && leb d.max_cache_hits d.current_cache_hits
    then some (max_stale_values_exceeded d.current_values_len d.max_cache_hits)
    else none

module _ {V : Type 0} (eq : V → V → Bool) (len : V → ℕ) where
  unfoldable pub add_new_value : V → DistinctValue V → DistinctValue V
  unfolding any
  add_new_value v d =
      if any (eq v) d.values
      then record d { current_cache_hits = succ32 d.current_cache_hits }
      else record d {
        current_cache_hits = 0;
        new = if d.diff_enabled then v ∷ d.new else d.new;
        values = v ∷ d.values;
        curr_data_size = d.curr_data_size + len v;
        current_values_len = succ32 d.current_values_len;
      }

  -- The new state, and whether a limit was reached.
  unfoldable pub collect_distinct : V → DistinctValue V → DistinctValue V × Bool
  unfolding value_limit add_new_value
  collect_distinct v d = if d.lim_exceeded then (d, true) else elim (value_limit d (len v)) [
    | some reason ↦ (record d { stop_reason = some reason; lim_exceeded = true }, true)
    | none ↦ (add_new_value v d, false)
  ]

-- The values since the last call, in any order, or `none` for the error that diffs are not enabled.
unfoldable pub diff_values : {V : Type 0} → DistinctValue V → DistinctValue V × Option (List V)
diff_values d = if d.diff_enabled then (record d { new = [] }, some d.new) else (d, none)
