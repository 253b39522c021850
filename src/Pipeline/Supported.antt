-- ===== src/Pipeline/Supported.antt =====
-- What the validation of a pipeline rules out at its evaluation.
use traceql_syntax.Base.{
  List, [], ◌∷◌, Option, none, some, ◌≡◌, ◌≢◌, refl, sym, Result, ok, err, ◌>>◌,
}
use mathlib.Core.Path.{subst}
use traceql_syntax.Runtime.{Runtime}
use traceql_syntax.Operator.{Operator}
use traceql_syntax.Expr.{Expr}
use traceql_syntax.Static.{Static}
use traceql_syntax.Execute.Values.{Err}
use traceql_syntax.Pipeline.{
  Pipeline, empty, element, Element, spanset_filter, scalar_filter, spanset_operation, nested,
  group_operation, coalesce_operation, select_operation, aggregate_element, Scalar, scalar_pipeline,
  scalar_operation, scalar_aggregate, scalar_static, Aggregate, scalar_type, AggregateOp,
}
use traceql_syntax.Pipeline.Spanset.{Spanset, scalar_filter_not_supported}
use traceql_syntax.Pipeline.Copied.{evaluate_filter-eq-matching}
use traceql_syntax.Execute.Settled.{value}
use traceql_syntax.Pipeline.Evaluate.{
  Environment, Evaluation, run, run_aggregate, evaluate_of, evaluate_scalar_filter, unless_empty,
  evaluate, evaluate_element, lift,
}
use traceql_syntax.Pipeline.Check.{
  PipelineChecked, validate_pipeline, validate_element, validate_scalar, validate_types,
  validate_sides,
}
use traceql_syntax.Pipeline.Avoids.{
  Avoids, bind-Avoids, filter-Avoids, group-Avoids, aggregate-Avoids, scalars-Avoids, loop_Avoids,
}

-- Both of two checks passed.
both_passed : (a b : PipelineChecked) → (a >> b) ≡ ok tt → (a ≡ ok tt) × (b ≡ ok tt)
both_passed (ok tt) b h = (refl, h)
both_passed (err e) b h = absurd (cc h)

module _ (rt : Runtime) {S : Type 0} (env : Environment S) where
  lift-Avoids : (r : Result Err Static) → Avoids (lift r)
  unfolding lift Avoids
  lift-Avoids (ok v) = tt
  lift-Avoids (err e) = λ h. cc h

  run-Avoids : (e : Expr) (s : S) → Avoids (run rt env e s)
  unfolding run
  run-Avoids e s = lift-Avoids (value rt e (env.attribute_for s))

  run_aggregate-Avoids :
      (op : AggregateOp) (e : Option Expr) (s : S)
      → Avoids (run_aggregate rt env (record { op = op; e = e }) s)
  unfolding run_aggregate Avoids
  run_aggregate-Avoids op none s = λ h. cc h
  run_aggregate-Avoids op (some e) s = run-Avoids e s

  evaluate_of-Avoids :
      (a : Aggregate) (input : List (Spanset S)) → Avoids (evaluate_of rt env a input)
  unfolding evaluate_of
  evaluate_of-Avoids a input =
      aggregate-Avoids (run_aggregate rt env a) (run_aggregate-Avoids a.op a.e) rt a.op
        (env.aggregate_name a) input

  scalar_filter-Avoids :
      (op : Operator) (l r : Scalar) (input : List (Spanset S))
      → validate_sides l r ≡ ok tt
      → Avoids (evaluate_scalar_filter rt env op l r input)
  unfolding evaluate_scalar_filter validate_sides
  scalar_filter-Avoids op (scalar_aggregate a) (scalar_static s) input h =
      bind-Avoids (evaluate_of rt env a input) _ (evaluate_of-Avoids a input)
        (λ out. scalars-Avoids rt op s out)
  scalar_filter-Avoids op (scalar_aggregate a) (scalar_pipeline q) input h = absurd (cc h)
  scalar_filter-Avoids op (scalar_aggregate a) (scalar_operation o x y) input h = absurd (cc h)
  scalar_filter-Avoids op (scalar_aggregate a) (scalar_aggregate b) input h = absurd (cc h)
  scalar_filter-Avoids op (scalar_static s) r input h = absurd (cc h)
  scalar_filter-Avoids op (scalar_pipeline q) r input h = absurd (cc h)
  scalar_filter-Avoids op (scalar_operation o x y) r input h = absurd (cc h)

  unless_empty-Avoids :
      (f : Evaluation S)
      → ((input : List (Spanset S)) → Avoids (f input))
      → (input : List (Spanset S)) → Avoids (unless_empty f input)
  unfolding unless_empty Avoids
  unless_empty-Avoids f h [] = tt
  unless_empty-Avoids f h (ss ∷ sss) = h (ss ∷ sss)

  mutual
    unfolding evaluate validate_pipeline Avoids

    evaluate-Avoids :
        (p : Pipeline)
        → validate_pipeline rt p ≡ ok tt
        → (input : List (Spanset S)) → Avoids (evaluate rt env p input)
    evaluate-Avoids empty h input = tt
    evaluate-Avoids (element e p) h input =
        let (first, rest) = both_passed (validate_element rt e) (validate_pipeline rt p) h in
        bind-Avoids (evaluate_element rt env e input) _ (element-Avoids e first input)
          (unless_empty-Avoids (evaluate rt env p) (evaluate-Avoids p rest))

    element-Avoids :
        (e : Element)
        → validate_element rt e ≡ ok tt
        → (input : List (Spanset S)) → Avoids (evaluate_element rt env e input)
    element-Avoids (spanset_filter e) h input =
        subst Avoids (sym (evaluate_filter-eq-matching (run rt env e) input))
          (filter-Avoids (run rt env e) (run-Avoids e) input)
    element-Avoids (scalar_filter op l r) h input =
        let (_, h1) = both_passed (validate_scalar rt l) _ h in
        let (_, h2) = both_passed (validate_scalar rt r) _ h1 in
        let (_, sides) =
          both_passed (validate_types op (scalar_type l) (scalar_type r)) (validate_sides l r) h2 in
        scalar_filter-Avoids op l r input sides
    element-Avoids (spanset_operation op l r) h input =
        let (left, more) = both_passed (validate_element rt l) _ h in
        let (_, right) = both_passed _ (validate_element rt r) more in
        loop_Avoids env.methods op (evaluate_element rt env l) (evaluate_element rt env r)
          (element-Avoids l left) (element-Avoids r right) [] input []
    element-Avoids (nested p) h input = evaluate-Avoids p h input
    element-Avoids (group_operation e) h input =
        group-Avoids (run rt env e) (run-Avoids e) env.sum64 env.order (env.group_name e) input
    element-Avoids coalesce_operation h input = tt
    element-Avoids (select_operation attrs) h input = tt
    element-Avoids (aggregate_element a) h input = evaluate_of-Avoids a input

-- A pipeline that passes the validation never fails, on any spansets, because a scalar filter is not
-- supported.
pub valid-supported :
    (rt : Runtime) {S : Type 0} (env : Environment S) (p : Pipeline)
    → validate_pipeline rt p ≡ ok tt
    → (input : List (Spanset S)) → evaluate rt env p input ≢ err scalar_filter_not_supported
unfolding Avoids
valid-supported rt env p h input e = subst Avoids e (evaluate-Avoids rt env p h input) refl
