-- ===== src/Tests/Repeats.antt =====
-- Executions of one expression on one span after another, in a filter.
use traceql_syntax.Base.{List, ok, ℕ, zero, suc, ◌≡◌, [], ◌∷◌, some, codes, refl, false}
use traceql_syntax.Operator.{op_or, op_equal}
use traceql_syntax.Static.{static_int}
use traceql_syntax.Expr.{Expr, binary, static}
use traceql_syntax.Attribute.{new_attribute}
use traceql_syntax.Optimizer.{Clock, idle, new_branch_predictor}
use traceql_syntax.Execute.{Span, execute, attribute_value}
use traceql_syntax.Execute.Arrays.{execute_values}
use traceql_syntax.Execute.Settled.{value}
use traceql_syntax.Execute.Steady.{IsSteady}
use traceql_syntax.Pipeline.Spanset.{Spanset}
use traceql_syntax.Pipeline.Filter.{evaluate_filter}
use traceql_syntax.Pipeline.Evaluate.{run}
use traceql_syntax.Pipeline.Executing.{execute_filter}
use traceql_syntax.Pipeline.Executed.{execute_filter-eq-evaluate_filter}
use traceql_syntax.Tests.Pipelines.{numbers, spanset}
use traceql_syntax.Tests.{toy, dot_a}

abbrev is_n : ℕ → Expr
is_n n = binary op_equal dot_a (static (static_int n)) [] idle

-- .a = 1 || .a = 2, whose optimizer takes one sample.
abbrev one_or_two : Expr
one_or_two = binary op_or (is_n 1) (is_n 2) [] (new_branch_predictor 2 1)

-- The left operand takes 9, the right one 1.
abbrev slow_left : Clock
slow_left zero = 9
slow_left (suc n) = 1

abbrev span_of : ℕ → Span
span_of n a = some (static_int n)

-- The left operand decides, and its cost counts against it.
left_exchanged :
    (execute toy one_or_two (span_of 1) slow_left).expr
    ≡ binary op_or (is_n 2) (is_n 1) [] (record {
      last = 9 ∷ 1 ∷ [];
      totals = 9 ∷ 0 ∷ [];
      recording = false;
      samples_remaining = 0;
    })
unfolding execute new_branch_predictor
left_exchanged = refl

-- A span where .a is an int.
abbrev HasInt : Span → Type 0
HasInt span = (n : ℕ) × (span (new_attribute (codes "a")) ≡ some (static_int n))

one_or_two-IsSteady : IsSteady toy HasInt one_or_two
unfolding value execute_values attribute_value
one_or_two-IsSteady = (
  (tt, tt, refl, refl, λ n. refl, λ j. absurd (cc j)),
  (tt, tt, refl, refl, λ n. refl, λ j. absurd (cc j)),
  refl,
  refl,
  λ n. absurd (cc n),
  λ j span (n, e). rw e (tt, tt),
)

abbrev two_spansets : List (Spanset ℕ)
two_spansets = spanset (1 ∷ 2 ∷ []) ∷ spanset (3 ∷ 2 ∷ []) ∷ []

execute_filter-eq-evaluate_filter_example :
    ((execute_filter toy numbers.attribute_for one_or_two slow_left two_spansets).0
      ≡ evaluate_filter (run toy numbers one_or_two) two_spansets)
    × ((span : Span)
        → HasInt span
        → value toy
            (execute_filter toy numbers.attribute_for one_or_two slow_left two_spansets).1
            span
          ≡ value toy one_or_two span)
execute_filter-eq-evaluate_filter_example =
    execute_filter-eq-evaluate_filter toy HasInt numbers one_or_two slow_left two_spansets
      one_or_two-IsSteady (((1, refl), ((2, refl), tt)), (((3, refl), ((2, refl), tt)), tt))

-- The second spanset is filtered by the exchanged operands.
two_spansets_filtered :
    (execute_filter toy numbers.attribute_for one_or_two slow_left two_spansets).0
    ≡ ok (spanset (1 ∷ 2 ∷ []) ∷ spanset (2 ∷ []) ∷ [])
unfolding execute_filter new_branch_predictor
two_spansets_filtered = refl
