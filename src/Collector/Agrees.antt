-- ===== src/Collector/Agrees.antt =====
-- internal/collector/distinct_string_collector.go and distinct_value_collector.go: the two collectors on
-- strings, call by call.
use traceql_syntax.Base.{
  ℕ, Bool, false, List, [], ◌∷◌, Option, none, some, Text, list_eq, length, ◌≡◌, refl, ap,
  Bool-cases, Option-cases, inl, inr, any,
}
use traceql_syntax.Collector.{
  DistinctString, new_collector, contains, reached, exceed, hit, add_value, collect_value, collect,
  diff, sorted,
}
use traceql_syntax.Collector.Distinct.{
  DistinctValue, new_distinct_value, value_limit, add_new_value, collect_distinct, diff_values,
}

-- The calls of a collector that change it.
pub data Call : Type 0 where
  collecting : Text → Call
  diffing : Call

-- What a caller sees: whether a limit is exceeded after Collect, and the new strings of Diff in order.
pub data Answer : Type 0 where
  exceeded : Bool → Answer
  differs : Option (List Text) → Answer

unfoldable pub string_step : Call → DistinctString → DistinctString × Answer
unfolding collect diff
string_step (collecting s) d = let d' = (collect s d).0 in (d', exceeded d'.lim_exceeded)
string_step diffing d = let (d', out) = diff d in (d', differs out)

sorted_option : Option (List Text) → Option (List Text)
sorted_option none = none
sorted_option (some ts) = some (sorted ts)

pub value_step : Call → DistinctValue Text → DistinctValue Text × Answer
unfolding collect_distinct diff_values
value_step (collecting s) d = let (d', b) = collect_distinct list_eq length s d in (d', exceeded b)
value_step diffing d = let (d', out) = diff_values d in (d', differs (sorted_option out))

-- The answers of a collector to calls in order.
unfoldable pub answers : {D : Type 0} → (Call → D → D × Answer) → List Call → D → List Answer
answers step [] d = []
answers step (c ∷ cs) d = let (d', a) = step c d in a ∷ answers step cs d'

-- The fields correspond.
as_values : DistinctString → DistinctValue Text
as_values d = record {
  values = d.values;
  new = d.new;
  max_data_size = d.max_data_size;
  curr_data_size = d.curr_data_size;
  current_values_len = d.current_values_len;
  max_values = d.max_values;
  max_cache_hits = d.max_cache_hits;
  current_cache_hits = d.current_cache_hits;
  diff_enabled = d.diff_enabled;
  lim_exceeded = d.lim_exceeded;
  stop_reason = d.stop_reason;
}

limit-as_values : (d : DistinctString) (n : ℕ) → value_limit (as_values d) n ≡ reached d n
unfolding value_limit as_values reached
limit-as_values d n = refl

-- The answer to Collect, from the collector and whether a limit was reached.
abbrev after_collect : DistinctValue Text × Bool → DistinctValue Text × Answer
after_collect (d, b) = (d, exceeded b)

abbrev of_string : DistinctString × Answer → DistinctValue Text × Answer
of_string (d, a) = (as_values d, a)

abbrev with_limit : DistinctString → DistinctString × Answer
with_limit d = (d, exceeded d.lim_exceeded)

collect_value-as_values :
    (s : Text) (d : DistinctString)
    → d.lim_exceeded ≡ false
    → after_collect (add_new_value list_eq length s (as_values d), false)
      ≡ of_string (with_limit (collect_value s d).0)
unfolding add_new_value as_values collect_value contains hit add_value
collect_value-as_values s d h = elim (Bool-cases (any (list_eq s) d.values)) [
  | inl e ↦ rw (e, h) refl
  | inr e ↦ rw (e, h) refl
]

collect-as_values :
    (s : Text) (d : DistinctString)
    → after_collect (collect_distinct list_eq length s (as_values d))
      ≡ of_string (with_limit (collect s d).0)
unfolding collect_distinct as_values collect exceed
collect-as_values s d = elim (Bool-cases d.lim_exceeded) [
  | inl e ↦ rw e refl
  | inr e ↦ elim (Option-cases (reached d (length s))) [
    | inl n ↦ rw (e, limit-as_values d (length s), n) (collect_value-as_values s d e)
    | inr (reason, n) ↦ rw (e, limit-as_values d (length s), n) refl
  ]
]

diff-as_values :
    (d : DistinctString) → value_step diffing (as_values d) ≡ of_string (string_step diffing d)
unfolding value_step string_step diff_values as_values diff sorted_option
diff-as_values d = elim (Bool-cases d.diff_enabled) [ inl e ↦ rw e refl | inr e ↦ rw e refl ]

step-as_values :
    (c : Call) (d : DistinctString) → value_step c (as_values d) ≡ of_string (string_step c d)
unfolding value_step string_step
step-as_values (collecting s) d = collect-as_values s d
step-as_values diffing d = diff-as_values d

answers-as_values :
    (cs : List Call) (d : DistinctString)
    → answers value_step cs (as_values d) ≡ answers string_step cs d
unfolding answers
answers-as_values [] d = refl
answers-as_values (c ∷ cs) d =
    rw (step-as_values c d)
      (ap (λ rest. (string_step c d).1 ∷ rest) (answers-as_values cs (string_step c d).0))

-- A new collector of values, for strings with their equality and lengths, and a new one of strings,
-- both with diffs or both without, and with the same limits, answer any sequence of calls of Collect
-- and Diff alike: whether a limit is exceeded after Collect, and the new strings of Diff, in order, or
-- its error.
pub new-Agrees :
    (with_diff : Bool) (max_data max_vals stale : ℕ) (cs : List Call)
    → answers value_step cs (new_distinct_value with_diff max_data max_vals stale)
      ≡ answers string_step cs (new_collector with_diff max_data max_vals stale)
unfolding new_distinct_value as_values
new-Agrees with_diff max_data max_vals stale cs =
    answers-as_values cs (new_collector with_diff max_data max_vals stale)
