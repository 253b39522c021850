-- ===== src/Tests/Pipelines.antt =====
-- Pipelines on spans that are numbers: runs, and the theorems at inputs that meet their hypotheses.
use traceql_syntax.Base.{
  ℕ, ◌||◌, List, [], ◌∷◌, none, some, codes, Text, any, ltb, ◌==◌, ==_iff, ◌≡◌, ◌≢◌, if◌then◌else◌,
  refl, Result, ok, err, ◌>>=◌,
}
use mathlib.Core.List.{Permᴰ}
use mathlib.Core.List.Permᴰ
use traceql_syntax.Operator.{op_greater}
use traceql_syntax.Static.{Static, static_nil, static_int, static_bool, type_of}
use traceql_syntax.Attribute.{new_attribute, attribute_eq}
use traceql_syntax.Expr.{Expr, attribute}
use traceql_syntax.Rewrite.{rewrite_field_expression}
use traceql_syntax.Build.{new_binary_operation}
use traceql_syntax.StaticType.{is_array}
use traceql_syntax.Execute.{Span, attribute_value}
use traceql_syntax.Pipeline.{
  Pipeline, empty, element, spanset_filter, scalar_filter, group_operation, scalar_aggregate,
  scalar_static, aggregate_count,
}
use traceql_syntax.Pipeline.Walk.{rewrite_pipeline}
use traceql_syntax.Pipeline.Spanset.{
  Spanset, EvaluateErr, no_trace, scalar_filter_not_supported, unique_spans, all_spans,
  evaluate_coalesce,
}
use traceql_syntax.Pipeline.Filter.{evaluate_filter}
use traceql_syntax.Pipeline.Filtered.{filter_each, evaluate_filter-eq-each}
use traceql_syntax.Pipeline.Group.{Groups, group_spans, groups_of, evaluate_group}
use traceql_syntax.Pipeline.Grouped.{AreDistinct, AreUniform, group_spans-Divides, coalesce-group}
use traceql_syntax.Pipeline.Evaluate.{Environment, evaluate}
use traceql_syntax.Pipeline.Sound.{IsPlainPipeline, evaluate-rewrite_pipeline}
use traceql_syntax.Pipeline.Check.{validate_pipeline}
use traceql_syntax.Pipeline.Supported.{valid-supported}
use traceql_syntax.Pipeline.Extract.{empty_request, extract_pipeline}
use traceql_syntax.Pipeline.Requested.{AgreeFor}
use traceql_syntax.Pipeline.Fetched.{answering, evaluate_fetched}
use traceql_syntax.Pipeline.Unique.{IsUnique, unique_spans-Union}
use traceql_syntax.Tests.{toy, dot_a, mixed, mixed-IsPlain, is_1_or_2}

-- An attribute prints as its name, any other expression alike.
abbrev name_of : Expr → Text
name_of (attribute a) = a.name
name_of e = codes "expression"

-- Each span has its number for all its attributes; relations keep the spans on the right.
abbrev pub numbers : Environment ℕ
numbers = record {
  attribute_for = λ n a. some (static_int n);
  methods = record {
    same = λ m n. m == n;
    sibling_of = λ s l r f u b. r;
    descendant_of = λ s l r f i u b. r;
    child_of = λ s l r f i u b. r;
  };
  sum64 = λ bs. 0;
  order = λ gs. gs;
  group_name = name_of;
  aggregate_name = λ a. codes "aggregate";
}

abbrev pub spanset : List ℕ → Spanset ℕ
spanset ns = record { scalar = static_nil; spans = ns; trace = no_trace; attributes = [] }

abbrev input : List (Spanset ℕ)
input = spanset (3 ∷ 1 ∷ []) ∷ spanset (2 ∷ 1 ∷ 1 ∷ []) ∷ []

-- { .a = 1 || .a = 2 } | count() > 2
abbrev few_groups : Pipeline
few_groups = element (spanset_filter is_1_or_2) (
    element
      (scalar_filter op_greater (scalar_aggregate (record { op = aggregate_count; e = none }))
        (scalar_static (static_int 2)))
      empty)

counted_runs :
    evaluate toy numbers few_groups input
    ≡ ok (
        record {
          scalar = static_int 3;
          spans = (2 ∷ 1 ∷ 1 ∷ []);
          trace = no_trace;
          attributes = ((codes "aggregate", static_int 3) ∷ []);
        }
        ∷ [])
unfolding evaluate new_attribute new_binary_operation
counted_runs = refl

-- A filter and by().
abbrev grouped : Pipeline
grouped = element (spanset_filter mixed) (element (group_operation dot_a) empty)

evaluate-rewrite_pipeline_example :
    evaluate toy numbers (rewrite_pipeline toy grouped).0 input ≡ evaluate toy numbers grouped input
unfolding IsPlainPipeline is_array type_of attribute_value rewrite_field_expression
evaluate-rewrite_pipeline_example =
    evaluate-rewrite_pipeline toy numbers (λ s a. refl) grouped (mixed-IsPlain, (refl, tt)) input

abbrev above_1 : ℕ → Result EvaluateErr Static
above_1 n = ok (static_bool (ltb 1 n))

evaluate_filter-eq-each_example : evaluate_filter above_1 input ≡ filter_each above_1 input
evaluate_filter-eq-each_example = evaluate_filter-eq-each above_1 input

group_spans-Divides_example :
    (gs : Groups ℕ) × (group_spans
        (λ bs. 0)
        (codes "by")
        (λ s. ok (static_int s))
        (spanset (2 ∷ 1 ∷ 2 ∷ []))
        (2 ∷ 1 ∷ 2 ∷ [])
        []
      ≡ ok gs)
    × AreDistinct gs
    × AreUniform (λ bs. 0) (λ s. static_int s) gs
    × Permᴰ (all_spans (groups_of gs)) (2 ∷ 1 ∷ 2 ∷ [])
group_spans-Divides_example =
    group_spans-Divides (λ bs. 0) (λ s. static_int s) (codes "by") (spanset (2 ∷ 1 ∷ 2 ∷ []))

coalesce-group_example :
    (c : Spanset ℕ) × ((evaluate_group
          (λ bs. 0)
          (λ gs. gs)
          (codes "by")
          (λ s. ok (static_int s))
          input
        >>= λ out. ok (evaluate_coalesce out))
      ≡ ok (c ∷ []))
    × Permᴰ c.spans (all_spans input)
coalesce-group_example =
    coalesce-group (λ bs. 0) (λ gs. gs) (λ gs. Permᴰ.refl gs) (λ s. static_int s) (codes "by") input

valid-supported_example : evaluate toy numbers few_groups input ≢ err scalar_filter_not_supported
unfolding validate_pipeline new_attribute new_binary_operation
valid-supported_example = valid-supported toy numbers few_groups refl input

unique_spans-Union_example :
    ((s : ℕ)
      → any
          (λ n. s == n)
          (unique_spans (λ m n. m == n) (spanset (1 ∷ 2 ∷ []) ∷ []) (spanset (2 ∷ 3 ∷ 4 ∷ []) ∷ []))
        ≡ (any (λ n. s == n) (1 ∷ 2 ∷ []) || any (λ n. s == n) (2 ∷ 3 ∷ 4 ∷ [])))
    × (IsUnique (λ m n. m == n) (1 ∷ 2 ∷ [])
        → IsUnique (λ m n. m == n) (2 ∷ 3 ∷ 4 ∷ [])
        → IsUnique
            (λ m n. m == n)
            (unique_spans
              (λ m n. m == n)
              (spanset (1 ∷ 2 ∷ []) ∷ [])
              (spanset (2 ∷ 3 ∷ 4 ∷ []) ∷ [])))
unfolding all_spans
unique_spans-Union_example =
    unique_spans-Union (λ m n. m == n) (λ m n. ==_iff m n) (spanset (1 ∷ 2 ∷ []) ∷ [])
      (spanset (2 ∷ 3 ∷ 4 ∷ []) ∷ [])

-- Without its attributes other than `a`, each span has them nil.
abbrev only_a : ℕ → Span
only_a n a = if attribute_eq a (new_attribute (codes "a")) then some (static_int n) else none

evaluate_fetched_example :
    ((ss : List (Spanset ℕ))
      → evaluate toy numbers few_groups ss
        ≡ evaluate toy (answering toy numbers only_a) few_groups ss)
    × AgreeFor (λ n a. some (static_int n)) only_a empty_request
unfolding extract_pipeline new_attribute attribute_eq new_binary_operation
evaluate_fetched_example =
    evaluate_fetched toy numbers only_a (λ n. codes "?") few_groups empty_request
      (λ s. (refl, (refl, tt)), λ s. tt)
