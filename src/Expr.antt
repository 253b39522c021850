-- ===== src/Expr.antt =====
-- traceql/ast.go: field expressions. A binary operation carries its compiled patterns and its
-- optimizer; a unary operation is met as a value and as a pointer.
use traceql_syntax.Base.{Bool, true, false, ◌||◌, List}
use traceql_syntax.StaticType.{StaticType, type_boolean, type_attribute}
use traceql_syntax.Operator.{Operator, op_exists, op_not_exists, is_boolean}
use traceql_syntax.Static.{Static, type_of}
use traceql_syntax.Attribute.{Attribute, intrinsic_type}
use traceql_syntax.Regexp.{Regexp}
use traceql_syntax.Optimizer.{BranchOptimizer}

pub data Expr : Type 0 where
  binary : Operator → Expr → Expr → List Regexp → BranchOptimizer → Expr
  unary unary_ref : Operator → Expr → Expr
  static : Static → Expr
  attribute : Attribute → Expr

unfoldable pub references_span : Expr → Bool
references_span (binary op l r compiled b) = references_span l || references_span r
references_span (unary op e) = references_span e
references_span (unary_ref op e) = references_span e
references_span (static s) = false
references_span (attribute a) = true

-- The type of an operation that is not boolean.
abbrev pub first_known : StaticType → StaticType → StaticType
first_known type_attribute t = t
first_known t _ = t

abbrev pub cond_type : Bool → StaticType → StaticType
cond_type true t = type_boolean
cond_type false t = t

abbrev pub is_existence : Operator → Bool
is_existence op_exists = true
is_existence op_not_exists = true
is_existence _ = false

unfoldable pub implied_type : Expr → StaticType
unfolding is_boolean type_of intrinsic_type
implied_type (binary op l r compiled b) =
    cond_type (is_boolean op) (first_known (implied_type l) (implied_type r))
implied_type (unary op e) = cond_type (is_existence op) (implied_type e)
implied_type (unary_ref op e) = cond_type (is_existence op) (implied_type e)
implied_type (static s) = type_of s
implied_type (attribute a) = intrinsic_type a.intrinsic
