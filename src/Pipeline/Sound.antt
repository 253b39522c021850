-- ===== src/Pipeline/Sound.antt =====
-- The rewriting of a whole pipeline leaves what it evaluates to.
use traceql_syntax.Base.{List, [], Option, none, some, ◌≡◌, refl, ap, ap₂, ◌>>=◌}
use mathlib.Core.Path.{fun_ext}
use traceql_syntax.Runtime.{Runtime}
use traceql_syntax.Operator.{Operator}
use traceql_syntax.Expr.{Expr}
use traceql_syntax.Rewrite.{rewrite_field_expression}
use traceql_syntax.Rewrite.Plain.{IsPlain, IsScalarSpan}
use traceql_syntax.Rewrite.Pass.{rewrite_sound}
use traceql_syntax.Pipeline.{
  Pipeline, empty, element, Element, spanset_filter, scalar_filter, spanset_operation, nested,
  group_operation, coalesce_operation, select_operation, aggregate_element, Scalar, scalar_pipeline,
  scalar_operation, scalar_aggregate, scalar_static, Aggregate, AggregateOp,
}
use traceql_syntax.Pipeline.Walk.{
  rewrite_aggregate, rewrite_pipeline, rewrite_element, rewrite_spanset_expression,
  rewrite_scalar_expression,
}
use traceql_syntax.Pipeline.Spanset.{Spanset}
use traceql_syntax.Pipeline.Filter.{evaluate_filter}
use traceql_syntax.Pipeline.Aggregates.{filter_scalars}
use traceql_syntax.Pipeline.Evaluate.{
  Environment, run, run_aggregate, evaluate_of, evaluate_scalar_filter, operation_loop,
  unless_empty, evaluate, evaluate_element,
}

-- The rewriting leaves the expression as it is.
abbrev pub IsLeft : Runtime → Expr → Type 0
IsLeft rt e = (rewrite_field_expression rt e).0 ≡ e

abbrev IsLeftAggregate : Runtime → Aggregate → Type 0
IsLeftAggregate rt a = elim a.e [ none ↦ Unit | some e ↦ IsLeft rt e ]

-- The expressions of filters are plain, and those of by() and the aggregates, whose texts become names
-- of attributes, are left as they are.
unfoldable mutual
  pub IsPlainPipeline : Runtime → Pipeline → Type 0
  IsPlainPipeline rt empty = Unit
  IsPlainPipeline rt (element e p) = IsPlainElement rt e × IsPlainPipeline rt p

  pub IsPlainElement : Runtime → Element → Type 0
  IsPlainElement rt (spanset_filter e) = IsPlain rt e
  IsPlainElement rt (scalar_filter op l r) = IsPlainScalar rt l × IsPlainScalar rt r
  IsPlainElement rt (spanset_operation op l r) = IsPlainElement rt l × IsPlainElement rt r
  IsPlainElement rt (nested p) = IsPlainPipeline rt p
  IsPlainElement rt (group_operation e) = IsLeft rt e
  IsPlainElement rt coalesce_operation = Unit
  IsPlainElement rt (select_operation attrs) = Unit
  IsPlainElement rt (aggregate_element a) = Unit

  pub IsPlainScalar : Runtime → Scalar → Type 0
  IsPlainScalar rt (scalar_pipeline p) = IsPlainPipeline rt p
  IsPlainScalar rt (scalar_operation op l r) = IsPlainScalar rt l × IsPlainScalar rt r
  IsPlainScalar rt (scalar_aggregate a) = IsLeftAggregate rt a
  IsPlainScalar rt (scalar_static s) = Unit

module _ (rt : Runtime) {S : Type 0} (env : Environment S)
    (scalars : (s : S) → IsScalarSpan (env.attribute_for s)) where
  run-rewrite :
      (e : Expr) → IsPlain rt e → run rt env (rewrite_field_expression rt e).0 ≡ run rt env e
  unfolding run
  run-rewrite e p =
      fun_ext (λ s. rw ((rewrite_sound rt e p).0 (env.attribute_for s) (scalars s)) refl)

  expression-rewrite :
      (op : AggregateOp) (e : Option Expr)
      → IsLeftAggregate rt (record { op = op; e = e })
      → evaluate_of rt env (rewrite_aggregate rt (record { op = op; e = e })).0
        ≡ evaluate_of rt env (record { op = op; e = e })
  unfolding evaluate_of run_aggregate rewrite_aggregate
  expression-rewrite op none p = refl
  expression-rewrite op (some e) p =
      ap (λ e'. evaluate_of rt env (record { op = op; e = some e' })) p

  evaluate_of-rewrite :
      (a : Aggregate)
      → IsLeftAggregate rt a
      → evaluate_of rt env (rewrite_aggregate rt a).0 ≡ evaluate_of rt env a
  evaluate_of-rewrite a p = expression-rewrite a.op a.e p

  scalar_filter-rewrite :
      (op : Operator) (l r : Scalar)
      → IsPlainScalar rt l
      → evaluate_scalar_filter rt env op
          (rewrite_scalar_expression rt l).0
          (rewrite_scalar_expression rt r).0
        ≡ evaluate_scalar_filter rt env op l r
  unfolding evaluate_scalar_filter rewrite_scalar_expression IsPlainScalar
  scalar_filter-rewrite op (scalar_aggregate a) (scalar_static s) p =
      ap (λ f. λ input. f input >>= filter_scalars rt op s) (evaluate_of-rewrite a p)
  scalar_filter-rewrite op (scalar_aggregate a) (scalar_pipeline q) p = refl
  scalar_filter-rewrite op (scalar_aggregate a) (scalar_operation o l r) p = refl
  scalar_filter-rewrite op (scalar_aggregate a) (scalar_aggregate b) p = refl
  scalar_filter-rewrite op (scalar_static s) r p = refl
  scalar_filter-rewrite op (scalar_pipeline q) r p = refl
  scalar_filter-rewrite op (scalar_operation o l r') r p = refl

  mutual
    unfolding evaluate rewrite_pipeline IsPlainPipeline

    pipeline-rewrite :
        (p : Pipeline)
        → IsPlainPipeline rt p
        → evaluate rt env (rewrite_pipeline rt p).0 ≡ evaluate rt env p
    pipeline-rewrite empty h = refl
    pipeline-rewrite (element e p) h =
        ap₂ (λ f g. λ input. f input >>= unless_empty g) (element-rewrite e h.0)
          (pipeline-rewrite p h.1)

    element-rewrite :
        (e : Element)
        → IsPlainElement rt e
        → evaluate_element rt env (rewrite_element rt e).0 ≡ evaluate_element rt env e
    element-rewrite (spanset_filter e) h =
        ap (λ f. λ input. evaluate_filter f input) (run-rewrite e h)
    element-rewrite (scalar_filter op l r) h = scalar_filter-rewrite op l r h.0
    element-rewrite (spanset_operation op l r) h =
        ap₂ (λ f g. λ input. operation_loop env.methods op f g [] input []) (spanset-rewrite l h.0)
          (spanset-rewrite r h.1)
    element-rewrite (nested p) h = pipeline-rewrite p h
    element-rewrite (group_operation e) h =
        ap (λ e'. evaluate_element rt env (group_operation e')) h
    element-rewrite coalesce_operation h = refl
    element-rewrite (select_operation attrs) h = refl
    element-rewrite (aggregate_element a) h = refl

    spanset-rewrite :
        (e : Element)
        → IsPlainElement rt e
        → evaluate_element rt env (rewrite_spanset_expression rt e).0 ≡ evaluate_element rt env e
    spanset-rewrite (spanset_filter e) h =
        ap (λ f. λ input. evaluate_filter f input) (run-rewrite e h)
    spanset-rewrite (scalar_filter op l r) h = scalar_filter-rewrite op l r h.0
    spanset-rewrite (spanset_operation op l r) h =
        ap₂ (λ f g. λ input. operation_loop env.methods op f g [] input []) (spanset-rewrite l h.0)
          (spanset-rewrite r h.1)
    spanset-rewrite (nested p) h = pipeline-rewrite p h
    spanset-rewrite (group_operation e) h = refl
    spanset-rewrite coalesce_operation h = refl
    spanset-rewrite (select_operation attrs) h = refl
    spanset-rewrite (aggregate_element a) h = refl

-- Where no span has an array among its attributes: a pipeline whose filters have plain expressions, and
-- whose by() and aggregates in scalar filters have expressions that the rewriting leaves as they are,
-- evaluates, on any spansets and with any printing of names, to what its rewriting evaluates to,
-- errors included.
pub evaluate-rewrite_pipeline :
    (rt : Runtime) {S : Type 0} (env : Environment S)
    → ((s : S) → IsScalarSpan (env.attribute_for s))
    → (p : Pipeline) → IsPlainPipeline rt p
    → (input : List (Spanset S))
    → evaluate rt env (rewrite_pipeline rt p).0 input ≡ evaluate rt env p input
evaluate-rewrite_pipeline rt env scalars p h input =
    ap (λ f. f input) (pipeline-rewrite rt env scalars p h)
