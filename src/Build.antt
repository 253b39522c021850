-- ===== src/Build.antt =====
-- traceql/ast.go, newBinaryOperation and newUnaryOperation: the constructors of field expressions,
-- which fold what does not reference the span, and write trace ids without their leading zeros.
use traceql_syntax.Base.{
  Bool, true, false, not, ◌&&◌, ◌||◌, [], ◌∷◌, none, Text, ok, err, ◌==◌, if◌then◌else◌,
}
use traceql_syntax.Runtime.{Runtime}
use traceql_syntax.Operator.{Operator, op_and, op_or}
use traceql_syntax.Static.{Static, static_string}
use traceql_syntax.Attribute.{intrinsic_trace_id, intrinsic_eq}
use traceql_syntax.Optimizer.{BranchOptimizer, Clock, idle, new_branch_predictor}
use traceql_syntax.Expr.{Expr, binary, unary, static, attribute, references_span}
use traceql_syntax.Execute.{Span, Run, execute}
use traceql_syntax.Validate.{validate, is_ok}

-- strings.TrimLeft(s, "0")
unfoldable pub trim_zeros : Text → Text
trim_zeros [] = []
trim_zeros (c ∷ cs) = if c == b'0' then trim_zeros cs else c ∷ cs

unfoldable pub normalize_trace_id_operand : Static → Static
unfolding trim_zeros
normalize_trace_id_operand (static_string s) = static_string (trim_zeros s)
normalize_trace_id_operand s = s

unfoldable pub is_trace_id : Expr → Bool
unfolding intrinsic_eq
is_trace_id (attribute a) = intrinsic_eq a.intrinsic intrinsic_trace_id
is_trace_id e = false

-- The operand `e` beside the operand `other`.
unfoldable pub normalize_beside : Expr → Expr → Expr
unfolding is_trace_id normalize_trace_id_operand
normalize_beside other (static s) =
    static (if is_trace_id other then normalize_trace_id_operand s else s)
normalize_beside other e = e

-- execute(nil): no attribute of an expression that does not reference the span is asked for, and
-- none of its nodes measures a cost.
abbrev pub no_span : Span
no_span a = none

abbrev pub no_clock : Clock
no_clock n = 0

-- A folded node is its value; one that fails stays, as the execution left it.
abbrev pub simplified : Run → Expr
simplified run = elim run.result [ ok v ↦ static v | err x ↦ run.expr ]

abbrev pub is_and_or : Operator → Bool
is_and_or op_and = true
is_and_or op_or = true
is_and_or _ = false

abbrev pub optimizer_for : Operator → BranchOptimizer
optimizer_for op = if is_and_or op then new_branch_predictor 2 1000 else idle

module _ (rt : Runtime) where
  -- The simplification of a node that was just made.
  unfoldable pub fold : Expr → Expr
  unfolding validate execute references_span
  fold e =
      if not (references_span e) && is_ok (validate rt e)
      then simplified (execute rt e no_span no_clock)
      else e

  unfoldable pub new_binary_operation : Operator → Expr → Expr → Expr
  unfolding normalize_beside fold references_span new_branch_predictor
  new_binary_operation op l r =
      let l' = normalize_beside r l in
      let r' = normalize_beside l r in
      if references_span l' || references_span r'
      then binary op l' r' [] (optimizer_for op)
      else fold (binary op l' r' [] idle)

  unfoldable pub new_unary_operation : Operator → Expr → Expr
  unfolding fold
  new_unary_operation op e = fold (unary op e)
