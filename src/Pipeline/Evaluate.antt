-- ===== src/Pipeline/Evaluate.antt =====
-- traceql/ast_execute.go and traceql/ast.go: the evaluation of pipelines. A field expression has its
-- settled value on each span (Execute/Settled), which Execute/Transparent and Pipeline/Executed relate to
-- its executions. The buffer of a spanset operation is the result for the spanset before; results are
-- values, so what a span may write into the buffer's memory is left out.
use traceql_syntax.Base.{
  Bool, true, false, List, [], ◌∷◌, Option, none, some, Text, Result, ok, err, ◌>>=◌, ℕ,
}
use traceql_syntax.Runtime.{Runtime}
use traceql_syntax.Operator.{
  Operator, op_spanset_and, op_spanset_union, op_spanset_child, op_spanset_parent,
  op_spanset_descendant, op_spanset_ancestor, op_spanset_sibling, op_spanset_not_child,
  op_spanset_not_parent, op_spanset_not_sibling, op_spanset_not_ancestor, op_spanset_not_descendant,
  op_spanset_union_child, op_spanset_union_parent, op_spanset_union_sibling,
  op_spanset_union_ancestor, op_spanset_union_descendant,
}
use traceql_syntax.Static.{Static}
use traceql_syntax.Expr.{Expr}
use traceql_syntax.Execute.{Span}
use traceql_syntax.Execute.Values.{Err}
use traceql_syntax.Execute.Settled.{value}
use traceql_syntax.Pipeline.{
  Pipeline, empty, element, Element, spanset_filter, scalar_filter, spanset_operation, nested,
  group_operation, coalesce_operation, select_operation, aggregate_element, Scalar,
  scalar_aggregate, scalar_static, Aggregate,
}
use traceql_syntax.Pipeline.Spanset.{
  Spanset, SpanMethods, EvaluateErr, failed, spanset_operation_not_supported,
  scalar_filter_not_supported, nil_expression, unique_spans, add_spanset, join_spansets,
  evaluate_coalesce,
}
use traceql_syntax.Pipeline.Filter.{evaluate_filter}
use traceql_syntax.Pipeline.Group.{evaluate_group}
use traceql_syntax.Pipeline.Aggregates.{evaluate_aggregate, filter_scalars}

-- What evaluation takes from outside: the spans, the hash and the order of maps, and the printer,
-- which names the attributes that by() and the aggregates add.
pub record Environment (S : Type 0) : Type 0 where
  pub attribute_for : S → Span
  pub methods : SpanMethods S
  pub sum64 : List ℕ → ℕ
  pub order : List (Spanset S) → List (Spanset S)
  pub group_name : Expr → Text
  pub aggregate_name : Aggregate → Text

-- A relation of spans: the first span on the right, the sides and the buffer.
abbrev pub Relation : Type 0 → Type 0
Relation S = S → List S → List S → List S → List S

-- The relation of an operator, with its flags.
unfoldable pub relation : {S : Type 0} → SpanMethods S → Operator → Option (Relation S)
relation m op_spanset_not_descendant = some (λ s l r. m.descendant_of s l r true false false)
relation m op_spanset_not_ancestor = some (λ s l r. m.descendant_of s l r true true false)
relation m op_spanset_ancestor = some (λ s l r. m.descendant_of s l r false true false)
relation m op_spanset_descendant = some (λ s l r. m.descendant_of s l r false false false)
relation m op_spanset_union_ancestor = some (λ s l r. m.descendant_of s l r false true true)
relation m op_spanset_union_descendant = some (λ s l r. m.descendant_of s l r false false true)
relation m op_spanset_not_child = some (λ s l r. m.child_of s l r true false false)
relation m op_spanset_child = some (λ s l r. m.child_of s l r false false false)
relation m op_spanset_not_parent = some (λ s l r. m.child_of s l r true true false)
relation m op_spanset_parent = some (λ s l r. m.child_of s l r false true false)
relation m op_spanset_union_parent = some (λ s l r. m.child_of s l r false true true)
relation m op_spanset_union_child = some (λ s l r. m.child_of s l r false false true)
relation m op_spanset_not_sibling = some (λ s l r. m.sibling_of s l r true false)
relation m op_spanset_sibling = some (λ s l r. m.sibling_of s l r false false)
relation m op_spanset_union_sibling = some (λ s l r. m.sibling_of s l r false true)
relation m op = none

abbrev pub Evaluation : Type 0 → Type 0
Evaluation S = List (Spanset S) → Result EvaluateErr (List (Spanset S))

module _ {S : Type 0} where
  -- Both sides, or either side, has a spanset.
  unfoldable pub both_spans : (S → S → Bool) → List (Spanset S) → List (Spanset S) → List S
  unfolding unique_spans
  both_spans same (l ∷ ls) (r ∷ rs) = unique_spans same (l ∷ ls) (r ∷ rs)
  both_spans same lhs rhs = []

  unfoldable pub either_spans : (S → S → Bool) → List (Spanset S) → List (Spanset S) → List S
  unfolding unique_spans
  either_spans same [] [] = []
  either_spans same lhs rhs = unique_spans same lhs rhs

  unfoldable pub related_spans :
      Operator
      → Option (Relation S)
      → List (Spanset S)
      → List (Spanset S)
      → List S
      → Result EvaluateErr (List S)
  unfolding join_spansets
  related_spans op none lhs rhs buffer = err (spanset_operation_not_supported op)
  related_spans op (some rel) lhs rhs buffer = join_spansets lhs rhs (λ s l r. rel s l r buffer)

  -- The operators that only count the spansets of their sides.
  unfoldable pub set_operation :
      SpanMethods S → Operator → Option (List (Spanset S) → List (Spanset S) → List S)
  unfolding both_spans either_spans
  set_operation m op_spanset_and = some (both_spans m.same)
  set_operation m op_spanset_union = some (either_spans m.same)
  set_operation m op = none

  -- The spans that match for one spanset of the input.
  unfoldable pub operation_spans :
      SpanMethods S
      → Operator
      → List (Spanset S)
      → List (Spanset S)
      → List S
      → Result EvaluateErr (List S)
  unfolding set_operation related_spans relation
  operation_spans m op lhs rhs buffer = elim (set_operation m op) [
    | some f ↦ ok (f lhs rhs)
    | none ↦ related_spans op (relation m op) lhs rhs buffer
  ]

  -- The loop of SpansetOperation.evaluate. Only relations read the buffer.
  unfoldable pub operation_loop :
      SpanMethods S
      → Operator
      → Evaluation S
      → Evaluation S
      → List S
      → List (Spanset S)
      → List (Spanset S)
      → Result EvaluateErr (List (Spanset S))
  unfolding operation_spans add_spanset
  operation_loop m op left right buffer [] output = ok output
  operation_loop m op left right buffer (ss ∷ sss) output = left (ss ∷ []) >>= λ lhs.
      right (ss ∷ []) >>= λ rhs. operation_spans m op lhs rhs buffer >>= λ matching.
      operation_loop m op left right matching sss (add_spanset ss matching output)

unfoldable pub lift : Result Err Static → Result EvaluateErr Static
lift (ok v) = ok v
lift (err e) = err (failed e)

module _ {S : Type 0} where
  -- The rest of a pipeline, which is left out where no spanset is left.
  unfoldable pub unless_empty : Evaluation S → Evaluation S
  unless_empty rest [] = ok []
  unless_empty rest (ss ∷ sss) = rest (ss ∷ sss)

module _ (rt : Runtime) {S : Type 0} (env : Environment S) where
  unfoldable pub run : Expr → S → Result EvaluateErr Static
  unfolding lift value
  run e s = lift (value rt e (env.attribute_for s))

  unfoldable pub run_aggregate : Aggregate → S → Result EvaluateErr Static
  unfolding run
  run_aggregate a = elim a.e [ none ↦ λ s. err nil_expression | some e ↦ run e ]

  unfoldable pub evaluate_of : Aggregate → Evaluation S
  unfolding evaluate_aggregate run_aggregate
  evaluate_of a = evaluate_aggregate rt a.op (env.aggregate_name a) (run_aggregate a)

  -- Only an aggregate beside a static is supported.
  unfoldable pub evaluate_scalar_filter : Operator → Scalar → Scalar → Evaluation S
  unfolding evaluate_of filter_scalars
  evaluate_scalar_filter op (scalar_aggregate a) (scalar_static r) input =
      evaluate_of a input >>= filter_scalars rt op r
  evaluate_scalar_filter op l r input = err scalar_filter_not_supported

  unfoldable mutual
    unfolding evaluate_filter evaluate_scalar_filter operation_loop evaluate_group evaluate_coalesce
        evaluate_of run unless_empty

    pub evaluate : Pipeline → Evaluation S
    evaluate empty input = ok input
    evaluate (element e p) input = evaluate_element e input >>= unless_empty (evaluate p)

    pub evaluate_element : Element → Evaluation S
    evaluate_element (spanset_filter e) input = evaluate_filter (run e) input
    evaluate_element (scalar_filter op l r) input = evaluate_scalar_filter op l r input
    evaluate_element (spanset_operation op l r) input =
        operation_loop env.methods op (evaluate_element l) (evaluate_element r) [] input []
    evaluate_element (nested p) input = evaluate p input
    evaluate_element (group_operation e) input =
        evaluate_group env.sum64 env.order (env.group_name e) (run e) input
    evaluate_element coalesce_operation input = ok (evaluate_coalesce input)
    evaluate_element (select_operation attrs) input = ok input
    evaluate_element (aggregate_element a) input = evaluate_of a input
