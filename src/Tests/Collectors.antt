-- ===== src/Tests/Collectors.antt =====
-- The collector of distinct strings: a run, and the theorems at concrete inputs.
use traceql_syntax.Base.{not, [], List, ◌∷◌, some, Text, list_eq, ◌≡◌, refl, arith, ◌&&◌, inr}
use traceql_syntax.Collector.{
  DistinctString, new_distinct_string_with_diff, contains, collect, strings, diff,
}
use traceql_syntax.Collector.Limits.{IsWell, Collected, collect-Collected}
use traceql_syntax.Collector.Diffs.{collect_all, diff-collect_all}
use traceql_syntax.Tests.{text_a, text_b}

-- A collector of at most 3 strings and fewer than 10 bytes.
abbrev collector_of_3 : DistinctString
collector_of_3 = new_distinct_string_with_diff 10 3 0

collector_of_3-IsWell : IsWell collector_of_3
collector_of_3-IsWell = record {
  distinct = tt;
  size = refl;
  len = refl;
  limit = omega arith;
  data_kept = inr (omega arith);
  values_kept = inr (omega arith);
}

collect-Collected_example : Collected text_a collector_of_3 (collect text_a collector_of_3)
collect-Collected_example = collect-Collected text_a collector_of_3 collector_of_3-IsWell

diff-collect_all_example :
    (out : List Text) × ((diff
        (collect_all (text_b ∷ text_a ∷ text_b ∷ []) (diff collector_of_3).0)).1
      ≡ some out)
    × ((t : Text)
        → contains t out ≡ (
            contains t
              (strings (collect_all (text_b ∷ text_a ∷ text_b ∷ []) (diff collector_of_3).0))
            && not (contains t (strings collector_of_3))))
diff-collect_all_example = diff-collect_all collector_of_3 (text_b ∷ text_a ∷ text_b ∷ []) refl

sorted_diff :
    (diff (collect_all (text_b ∷ text_a ∷ text_b ∷ []) collector_of_3)).1
    ≡ some (text_a ∷ text_b ∷ [])
unfolding diff collect list_eq
sorted_diff = refl
