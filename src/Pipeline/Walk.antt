-- ===== src/Pipeline/Walk.antt =====
-- traceql/ast_rewriter.go: the walk of the rewriter over pipelines to their field expressions.
use traceql_syntax.Base.{ℕ, ◌+◌, none, some}
use traceql_syntax.Runtime.{Runtime}
use traceql_syntax.Static.{Static}
use traceql_syntax.Expr.{Expr, static}
use traceql_syntax.Rewrite.{rewrite_field_expression}
use traceql_syntax.Pipeline.{
  Pipeline, empty, element, Element, spanset_filter, scalar_filter, spanset_operation, nested,
  group_operation, Scalar, scalar_pipeline, scalar_operation, scalar_aggregate, scalar_static,
  Aggregate,
}

-- A static stands where its rewriting is one.
abbrev static_or : Static → Expr × ℕ → Scalar × ℕ
static_or s (static s', n) = (scalar_static s', n)
static_or s (e, n) = (scalar_static s, 0)

-- newAggregate on the rewritten expression; nothing is found in a count().
unfoldable pub rewrite_aggregate : Runtime → Aggregate → Aggregate × ℕ
unfolding rewrite_field_expression
rewrite_aggregate rt a = elim a.e [
  | none ↦ (a, 0)
  | some e ↦ let (fe, n) = rewrite_field_expression rt e in (record { op = a.op; e = some fe }, n)
]

unfoldable mutual
  unfolding rewrite_field_expression rewrite_aggregate

  pub rewrite_pipeline : Runtime → Pipeline → Pipeline × ℕ
  rewrite_pipeline rt empty = (empty, 0)
  rewrite_pipeline rt (element e p) =
      let (e', n) = rewrite_element rt e in
      let (p', m) = rewrite_pipeline rt p in (element e' p', n + m)

  -- The cases of rewritePipeline; an aggregate is not among them.
  pub rewrite_element : Runtime → Element → Element × ℕ
  rewrite_element rt (spanset_filter e) =
      let (fe, n) = rewrite_field_expression rt e in (spanset_filter fe, n)
  rewrite_element rt (scalar_filter op l r) =
      let (lhs, n) = rewrite_scalar_expression rt l in
      let (rhs, m) = rewrite_scalar_expression rt r in (scalar_filter op lhs rhs, n + m)
  rewrite_element rt (group_operation e) =
      let (fe, n) = rewrite_field_expression rt e in (group_operation fe, n)
  rewrite_element rt (spanset_operation op l r) =
      let (lhs, n) = rewrite_spanset_expression rt l in
      let (rhs, m) = rewrite_spanset_expression rt r in (spanset_operation op lhs rhs, n + m)
  rewrite_element rt (nested p) = let (p', n) = rewrite_pipeline rt p in (nested p', n)
  rewrite_element rt e = (e, 0)

  pub rewrite_spanset_expression : Runtime → Element → Element × ℕ
  rewrite_spanset_expression rt (spanset_filter e) =
      let (fe, n) = rewrite_field_expression rt e in (spanset_filter fe, n)
  rewrite_spanset_expression rt (scalar_filter op l r) =
      let (lhs, n) = rewrite_scalar_expression rt l in
      let (rhs, m) = rewrite_scalar_expression rt r in (scalar_filter op lhs rhs, n + m)
  rewrite_spanset_expression rt (spanset_operation op l r) =
      let (lhs, n) = rewrite_spanset_expression rt l in
      let (rhs, m) = rewrite_spanset_expression rt r in (spanset_operation op lhs rhs, n + m)
  rewrite_spanset_expression rt (nested p) = let (p', n) = rewrite_pipeline rt p in (nested p', n)
  rewrite_spanset_expression rt e = (e, 0)

  pub rewrite_scalar_expression : Runtime → Scalar → Scalar × ℕ
  rewrite_scalar_expression rt (scalar_pipeline p) =
      let (p', n) = rewrite_pipeline rt p in (scalar_pipeline p', n)
  rewrite_scalar_expression rt (scalar_operation op l r) =
      let (lhs, n) = rewrite_scalar_expression rt l in
      let (rhs, m) = rewrite_scalar_expression rt r in (scalar_operation op lhs rhs, n + m)
  rewrite_scalar_expression rt (scalar_aggregate a) =
      let (a', n) = rewrite_aggregate rt a in (scalar_aggregate a', n)
  rewrite_scalar_expression rt (scalar_static s) =
      static_or s (rewrite_field_expression rt (static s))
