-- ===== src/Pipeline/Fetched.antt =====
-- The two passes of a pipeline fetch every attribute that its evaluation depends on.
use traceql_syntax.Base.{
  ℕ, Bool, false, ◌||◌, List, [], ◌∷◌, Option, none, some, Text, ◌≡◌, refl, ap, ap₂, ◌>>=◌,
}
use mathlib.Core.Path.{fun_ext}
use traceql_syntax.Runtime.{Runtime}
use traceql_syntax.Operator.{Operator}
use traceql_syntax.Attribute.{Attribute, Intrinsic, new_intrinsic}
use traceql_syntax.Conditions.{Request, fetch}
use traceql_syntax.Expr.{Expr}
use traceql_syntax.Execute.{Span}
use traceql_syntax.Pipeline.{
  Pipeline, empty, element, Element, spanset_filter, scalar_filter, spanset_operation, nested,
  group_operation, coalesce_operation, select_operation, aggregate_element, Scalar, scalar_pipeline,
  scalar_operation, scalar_aggregate, scalar_static, AggregateOp,
}
use traceql_syntax.Pipeline.Spanset.{Spanset}
use traceql_syntax.Pipeline.Filter.{evaluate_filter}
use traceql_syntax.Pipeline.Group.{evaluate_group}
use traceql_syntax.Pipeline.Aggregates.{evaluate_aggregate, filter_scalars}
use traceql_syntax.Pipeline.Evaluate.{
  Environment, lift, run, run_aggregate, evaluate_of, evaluate_scalar_filter, operation_loop,
  unless_empty, evaluate, evaluate_element,
}
use traceql_syntax.Pipeline.Extract.{
  FetchRequest, on_first, without_hint, in_pass, is_select, fetch_attributes, fetch_structure,
  structure_of, extract_aggregate, extract_pipeline, extract_element, extract_scalar,
}
use traceql_syntax.Pipeline.Requested.{
  AgreeFor, AgreeOn, Asks, SameValue, in_pass-Asks, first-Asks, extract-Asks, filter-Asks,
  fetch-Asks, Agree-parts,
}

module _ (rt : Runtime) {S : Type 0} (env : Environment S) (f' : S → Span) where
  -- The same evaluation on spans that answer otherwise.
  abbrev pub answering : Environment S
  answering = record env { attribute_for = f' }

  run-eq : (e : Expr) → SameValue env.attribute_for f' rt e → run rt env e ≡ run rt answering e
  unfolding run
  run-eq e same = fun_ext (λ s. ap lift (same s))

  expression-Asks :
      (op : AggregateOp) (e : Option Expr)
      → Asks env.attribute_for f'
          (evaluate_of rt env (record { op = op; e = e })
            ≡ evaluate_of rt answering (record { op = op; e = e }))
          (extract_aggregate (record { op = op; e = e }))
  unfolding extract_aggregate evaluate_of run_aggregate without_hint
  expression-Asks op none req h = (h, refl)
  expression-Asks op (some e) req h =
      let (before, same) = extract-Asks env.attribute_for f' rt e (without_hint req) h in
      (
        before,
        ap (λ r. evaluate_aggregate rt op (env.aggregate_name (record { op = op; e = some e })) r)
            (run-eq e same),
      )

  chosen-Asks :
      (format : ℕ → Text) (i : Option Intrinsic) (req : Request)
      → AgreeOn env.attribute_for f'
          (elim i as (λ x. Request) [
            | none ↦ req
            | some i ↦ fetch (new_intrinsic format i) req
          ]).conditions
      → AgreeOn env.attribute_for f' req.conditions
  chosen-Asks format none req h = h
  chosen-Asks format (some i) req h = fetch-Asks env.attribute_for f' (new_intrinsic format i) req h

  structure-Asks :
      (format : ℕ → Text) (op : Operator)
      → Asks env.attribute_for f' (Unit {0}) (on_first (fetch_structure format op))
  unfolding fetch_structure
  structure-Asks format op =
      first-Asks env.attribute_for f' (Unit {0}) (fetch_structure format op)
        (λ req h. (chosen-Asks format (structure_of op) req h, tt))

  attributes-Asks :
      (as' : List Attribute) (req : Request)
      → AgreeOn env.attribute_for f' (fetch_attributes as' req).conditions
      → AgreeOn env.attribute_for f' req.conditions
  unfolding fetch_attributes
  attributes-Asks [] req h = h
  attributes-Asks (a ∷ as') req h =
      fetch-Asks env.attribute_for f' a req (attributes-Asks as' (fetch a req) h)

  -- What a scalar contributes to a scalar filter.
  abbrev SameScalar : Scalar → Type 0
  SameScalar (scalar_aggregate a) = evaluate_of rt env a ≡ evaluate_of rt answering a
  SameScalar l = Unit

  scalar_filter-eq :
      (op : Operator) (l r : Scalar)
      → SameScalar l
      → evaluate_scalar_filter rt env op l r ≡ evaluate_scalar_filter rt answering op l r
  unfolding evaluate_scalar_filter
  scalar_filter-eq op (scalar_aggregate a) (scalar_static s) same =
      ap (λ g. λ input. g input >>= filter_scalars rt op s) same
  scalar_filter-eq op (scalar_aggregate a) (scalar_pipeline q) same = refl
  scalar_filter-eq op (scalar_aggregate a) (scalar_operation o x y) same = refl
  scalar_filter-eq op (scalar_aggregate a) (scalar_aggregate b) same = refl
  scalar_filter-eq op (scalar_static s) r same = refl
  scalar_filter-eq op (scalar_pipeline q) r same = refl
  scalar_filter-eq op (scalar_operation o x y) r same = refl

  module _ (format : ℕ → Text) where
    mutual
      unfolding evaluate extract_pipeline without_hint

      pipeline-Asks :
          (second : Bool) (p : Pipeline)
          → Asks env.attribute_for f'
              (evaluate rt env p ≡ evaluate rt answering p)
              (extract_pipeline format second p)
      pipeline-Asks second empty req h = (h, refl)
      pipeline-Asks second (element e p) req h =
          let (more, rest) =
            pipeline-Asks (second || is_select e) p (in_pass second (extract_element format e) req)
              h in
          let (before, same) =
            in_pass-Asks env.attribute_for f' second (extract_element format e) (element-Asks e) req
              more in
          (before, ap₂ (λ g k. λ input. g input >>= unless_empty k) same rest)

      element-Asks :
          (e : Element)
          → Asks env.attribute_for f'
              (evaluate_element rt env e ≡ evaluate_element rt answering e)
              (extract_element format e)
      element-Asks (spanset_filter e) req h =
          let (before, same) = filter-Asks env.attribute_for f' rt format e req h in
          (before, ap (λ r. λ input. evaluate_filter r input) (run-eq e same))
      element-Asks (scalar_filter op l r) req h =
          let (more, _) = scalar-Asks r (extract_scalar format l req) h in
          let (before, same) = scalar-Asks l req more in (before, scalar_filter-eq op l r same)
      element-Asks (spanset_operation op l r) req h =
          let start = on_first (fetch_structure format op) req in
          let (more, right) = element-Asks r (extract_element format l start) h in
          let (some', left) = element-Asks l start more in
          let (before, _) = structure-Asks format op req some' in
          (before, ap₂ (λ g k. λ input. operation_loop env.methods op g k [] input []) left right)
      element-Asks (nested p) req h = pipeline-Asks false p req h
      element-Asks (group_operation e) req h =
          let (before, same) = extract-Asks env.attribute_for f' rt e req h in
          (
            before,
            ap (λ r. λ input. evaluate_group env.sum64 env.order (env.group_name e) r input)
                (run-eq e same),
          )
      element-Asks coalesce_operation req h = (h, refl)
      element-Asks (select_operation attrs) req (first, second) = (
        (
          first,
          λ s.
              (Agree-parts env.attribute_for f' (env.attribute_for s) (f' s)
                req.second_pass_conditions _ (second s)).0,
        ),
        refl,
      )
      element-Asks (aggregate_element a) req h = expression-Asks a.op a.e req h

      scalar-Asks :
          (l : Scalar) → Asks env.attribute_for f' (SameScalar l) (extract_scalar format l)
      scalar-Asks (scalar_pipeline p) req h = ((pipeline-Asks false p req h).0, tt)
      scalar-Asks (scalar_operation op l r) req h =
          let (more, _) = scalar-Asks r (extract_scalar format l req) h in
          ((scalar-Asks l req more).0, tt)
      scalar-Asks (scalar_aggregate a) req h = expression-Asks a.op a.e req h
      scalar-Asks (scalar_static s) req h = (h, tt)

-- If all spans answer the same, before and after, for the attributes of the conditions that a
-- pipeline extracts, of the first or the second pass, added to any request, then the pipeline
-- evaluates on any spansets to the same, errors included; and what the request asked for before is
-- still asked for.
pub evaluate_fetched :
    (rt : Runtime) {S : Type 0} (env : Environment S) (answers : S → Span) (format : ℕ → Text)
    (p : Pipeline) (req : FetchRequest)
    → AgreeFor env.attribute_for answers (extract_pipeline format false p req)
    → ((input : List (Spanset S))
        → evaluate rt env p input ≡ evaluate rt (answering rt env answers) p input)
      × AgreeFor env.attribute_for answers req
evaluate_fetched rt env answers format p req h =
    let (before, same) = pipeline-Asks rt env answers format false p req h in
    ((λ input. ap (λ g. g input) same), before)
