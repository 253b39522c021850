-- ===== src/Tests/Traces.antt =====
-- The theorems on search results at inputs that meet their hypotheses, and runs of the code.
use traceql_syntax.Base.{
  ℕ, List, [], ◌∷◌, any, Option, none, some, Text, codes, map, ◌≡◌, refl, arith,
}
use traceql_syntax.Combine.Search.{
  Meta, MostRecentCombiner, new_most_recent_combiner, exists, add_metadata, oldest_timestamp_nanos,
}
use traceql_syntax.Combine.Search.Taken.{HasDistinctIds}
use traceql_syntax.Combine.Search.Recent.{add_all, KeepsMostRecent, add_all-KeepsMostRecent}

abbrev trace_of : Text → ℕ → Meta ℕ ℕ
trace_of id start = record {
  trace_id = id;
  root_service_name = [];
  root_trace_name = [];
  start_time_unix_nano = start;
  duration_ms = 1;
  service_stats = [];
  span_sets = [];
  span_set = none;
}

abbrev digit : ℕ → Text
digit n = 48 ∷ []

abbrev three_traces : List (Meta ℕ ℕ)
three_traces = trace_of (codes "a") 5 ∷ trace_of (codes "b") 3 ∷ trace_of (codes "c") 7 ∷ []

three_traces-HasDistinctIds : HasDistinctIds three_traces
unfolding exists any
three_traces-HasDistinctIds = (refl, (refl, (refl, tt)))

add_all-KeepsMostRecent_example :
    (c : MostRecentCombiner ℕ ℕ) × (add_all digit three_traces (new_most_recent_combiner 2)
      ≡ some c)
    × KeepsMostRecent 2 three_traces c
add_all-KeepsMostRecent_example =
    add_all-KeepsMostRecent digit 2 three_traces (omega arith) three_traces-HasDistinctIds

abbrev starts_after : List (Meta ℕ ℕ) → Option (List ℕ × ℕ)
starts_after ms = elim (add_all digit ms (new_most_recent_combiner 2)) [
  | none ↦ none
  | some c ↦
      some (map (λ m. m.start_time_unix_nano) c.trs_sorted, oldest_timestamp_nanos c.trs_sorted)
]

two_latest : starts_after three_traces ≡ some (7 ∷ 5 ∷ [], 5)
unfolding add_metadata new_most_recent_combiner oldest_timestamp_nanos
two_latest = refl

-- A part of the first trace that started earlier leaves the slice out of order.
combined_out_of_order :
    starts_after (trace_of (codes "a") 9 ∷ trace_of (codes "b") 7 ∷ trace_of (codes "a") 1 ∷ [])
    ≡ some (1 ∷ 7 ∷ [], 7)
unfolding add_metadata new_most_recent_combiner oldest_timestamp_nanos
combined_out_of_order = refl
