-- ===== src/Execute/Settled.antt =====
-- What an expression means once its optimizers have settled: no clock, no compiled patterns and no
-- exchange of operands. AND and OR leave out the right operand where the left one decides.
use traceql_syntax.Base.{false, [], Option, none, some, Result, ok, ◌>>=◌}
use traceql_syntax.Runtime.{Runtime}
use traceql_syntax.Operator.{Operator}
use traceql_syntax.Static.{Static}
use traceql_syntax.Expr.{Expr, binary, unary, unary_ref, static, attribute}
use traceql_syntax.Execute.{Span, short_circuit, unary_value, attribute_value}
use traceql_syntax.Execute.Values.{Err}
use traceql_syntax.Execute.Arrays.{execute_values}

abbrev pub settle : Option Static → Result Err Static → Result Err Static
settle (some v) rest = ok v
settle none rest = rest

-- The result of a binary operation for its left value, and its right value as it would come.
abbrev pub operation_value : Runtime → Operator → Static → Result Err Static → Result Err Static
operation_value rt op lhs right =
    settle (short_circuit false op lhs) (right >>= λ rhs. (execute_values rt op lhs rhs []).0)

module _ (rt : Runtime) where
  unfoldable pub value : Expr → Span → Result Err Static
  unfolding short_circuit execute_values unary_value attribute_value
  value (binary op l r c b) span =
      let right = value r span in value l span >>= λ lhs. operation_value rt op lhs right
  value (unary op e) span = value e span >>= unary_value rt op
  value (unary_ref op e) span = value e span >>= unary_value rt op
  value (static s) span = ok s
  value (attribute a) span = ok (attribute_value (span a))
