-- ===== src/Execute.antt =====
-- traceql/ast_execute.go: execution of field expressions. It changes the expression: compiled
-- patterns are kept, and an AND or OR learns which operand to run first. So `execute` returns the
-- expression that is left with its result, and takes the costs that the clock will measure.
pub mod Values
pub mod Arrays
pub mod Settled
pub mod Elements
pub mod Transparent
pub mod Recording
pub mod Patternless
pub mod Steady
pub mod Repeated
use traceql_syntax.Base.{
  ℕ, suc, Bool, true, false, not, ◌&&◌, ◌||◌, List, Option, none, some, Result, ok, err, ◌>>=◌,
  if◌then◌else◌, ◌==◌, neg64, codes,
}
use traceql_syntax.Runtime.{Runtime}
use traceql_syntax.Operator.{
  Operator, op_and, op_or, op_not, op_sub, op_exists, op_not_exists, binary_types_valid,
}
use traceql_syntax.StaticType.{is_matching_operand, type_boolean}
use traceql_syntax.Static.{
  Static, static_nil, static_int, static_float, static_duration, static_string, static_bool, equals,
}
use traceql_syntax.Attribute.{Attribute}
use traceql_syntax.Regexp.{Regexp}
use traceql_syntax.Optimizer.{
  BranchOptimizer, Clock, left_branch, right_branch, finish, penalize, sampled, optimal_branch,
}
use traceql_syntax.Expr.{Expr, binary, unary, unary_ref, static, attribute}
use Values.{Err, not_a_boolean, not_a_numeric, invalid_operator}
use Arrays.{execute_values}

-- A span answers for its attributes (Span.AttributeFor).
abbrev pub Span : Type 0
Span = Attribute → Option Static

pub record Run : Type 0 where
  pub result : Result Err Static
  pub expr : Expr
  pub clock : Clock

abbrev tick : Clock → Clock
tick k n = k (suc n)

-- Whether the value of the left operand settles the operation; not while the optimizer records.
unfoldable pub short_circuit : Bool → Operator → Static → Option Static
short_circuit false op_and (static_bool false) = some (static_bool false)
short_circuit false op_or (static_bool true) = some (static_bool true)
short_circuit _ _ _ = none

-- The penalties for the branch that was not needed, as the code charges them.
penalize_if : Bool → ℕ → BranchOptimizer → BranchOptimizer
unfolding penalize
penalize_if true branch b = penalize branch b
penalize_if false branch b = b

unfoldable pub charge : Operator → Bool → Bool → BranchOptimizer → BranchOptimizer
unfolding penalize_if
charge op_and l r b = penalize_if (not r) left_branch (penalize_if (not l) right_branch b)
charge op_or l r b = penalize_if l left_branch (penalize_if r right_branch b)
charge _ l r b = b

-- The optimizer after two bools, and whether the operands are exchanged.
unfoldable pub learn : Operator → Static → Static → BranchOptimizer → BranchOptimizer × Bool
unfolding charge sampled optimal_branch binary_types_valid
learn op (static_bool l) (static_bool r) b =
    if b.recording && binary_types_valid op type_boolean type_boolean
    then (let (b', done) = sampled (charge op l r b) in
        (b', done && optimal_branch b'.totals == right_branch))
    else (b, false)
learn op l r b = (b, false)

-- One recorded cost, where the optimizer records.
unfoldable pub record_cost : ℕ → BranchOptimizer → Clock → BranchOptimizer × Clock
unfolding finish
record_cost branch b k = if b.recording then (finish branch (k 0) b, tick k) else (b, k)

-- UnaryOperation.execute on the value of its operand.
unfoldable pub unary_value : Runtime → Operator → Static → Result Err Static
unfolding neg64 equals
unary_value rt op_not (static_bool b) = ok (static_bool (not b))
unary_value rt op_not s = err not_a_boolean
unary_value rt op_sub (static_int n) = ok (static_int (neg64 n))
unary_value rt op_sub (static_float f) = ok (static_float (rt.f_mul rt.minus_one f))
unary_value rt op_sub (static_duration d) = ok (static_duration (neg64 d))
unary_value rt op_sub s = err not_a_numeric
unary_value rt op_exists static_nil = ok (static_bool false)
unary_value rt op_exists s = ok (static_bool true)
unary_value rt op_not_exists s = ok (static_bool (equals rt s (static_string (codes "nil"))))
unary_value rt op s = err (invalid_operator op)

unfoldable pub attribute_value : Option Static → Static
attribute_value none = static_nil
attribute_value (some s) = s

module _ (rt : Runtime) where
  -- After the right operand gave a result and left `r`: the operation, and what the node learns.
  unfoldable pub after_right :
      Operator
      → List Regexp
      → Static
      → Expr
      → BranchOptimizer
      → Expr
      → Clock
      → Result Err Static
      → Run
  unfolding execute_values learn record_cost
  after_right op c lhs l b r k (err x) = record {
    result = err x;
    expr = binary op l r c b;
    clock = k;
  }
  after_right op c lhs l b r k (ok rhs) =
      let (b1, k1) = record_cost right_branch b k in
      let (res, c') = execute_values rt op lhs rhs c in
      let (b2, swap) = learn op lhs rhs b1 in
      record {
        result = res;
        expr = if swap then binary op r l c' b2 else binary op l r c' b2;
        clock = k1;
      }

  -- The left operand has a value: it settles the operation, or the right one runs.
  unfoldable pub continue :
      Operator
      → List Regexp
      → BranchOptimizer
      → Expr
      → Expr
      → Static
      → Clock
      → (Clock → Run)
      → Option Static
      → Run
  unfolding after_right
  continue op c b l r lhs k run_right (some v) = record {
    result = ok v;
    expr = binary op l r c b;
    clock = k;
  }
  continue op c b l r lhs k run_right none =
      let right = run_right k in after_right op c lhs l b right.expr right.clock right.result

  -- After the left operand gave a result and left `l`; `run_right` runs the right one from a clock.
  unfoldable pub after_left :
      Operator
      → List Regexp
      → BranchOptimizer
      → Expr
      → Expr
      → Clock
      → (Clock → Run)
      → Result Err Static
      → Run
  unfolding short_circuit continue record_cost
  after_left op c b l r k run_right (err x) = record {
    result = err x;
    expr = binary op l r c b;
    clock = k;
  }
  after_left op c b l r k run_right (ok lhs) =
      let (b1, k1) = record_cost left_branch b k in
      continue op c b1 l r lhs k1 run_right (short_circuit b.recording op lhs)

  unfoldable pub execute : Expr → Span → Clock → Run
  unfolding after_left unary_value attribute_value
  execute (binary op l r c b) span k =
      let left = execute l span k in
      after_left op c b left.expr r left.clock (λ k'. execute r span k') left.result
  execute (unary op e) span k =
      let run = execute e span k in
      record {
        result = run.result >>= unary_value rt op;
        expr = unary op run.expr;
        clock = run.clock;
      }
  execute (unary_ref op e) span k =
      let run = execute e span k in
      record {
        result = run.result >>= unary_value rt op;
        expr = unary_ref op run.expr;
        clock = run.clock;
      }
  execute (static s) span k = record { result = ok s; expr = static s; clock = k }
  execute (attribute a) span k = record {
    result = ok (attribute_value (span a));
    expr = attribute a;
    clock = k;
  }
