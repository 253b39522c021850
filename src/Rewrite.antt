-- ===== src/Rewrite.antt =====
-- traceql/ast_rewriter.go: the rewriting of chains of OR and AND into array operations.
pub mod Comparisons
pub mod Joined
pub mod Operands
pub mod Reads
pub mod Joins
pub mod Rules
pub mod Plain
pub mod Sound
pub mod Pass
pub mod Limits
use traceql_syntax.Base.{
  ℕ, ◌+◌, Bool, true, ◌&&◌, List, [], ◌∷◌, any, Option, none, some, if◌then◌else◌,
}
use traceql_syntax.Runtime.{Runtime}
use traceql_syntax.StaticType.{StaticType, type_string, type_string_array, type_eq}
use traceql_syntax.Operator.{
  Operator, op_or, op_and, op_equal, op_not_equal, op_regex, op_not_regex, op_in, op_not_in,
  op_regex_match_any, op_regex_match_none, op_eq,
}
use traceql_syntax.Static.{Static, type_of}
use traceql_syntax.Static.Append.{append}
use traceql_syntax.Attribute.{Attribute, attribute_eq}
use traceql_syntax.Expr.{Expr, binary, unary_ref, static, attribute}
use traceql_syntax.Build.{new_binary_operation, new_unary_operation}

-- slices.Contains on operators and on types.
abbrev pub contains_op : List Operator → Operator → Bool
contains_op ops op = any (λ o. op_eq o op) ops

abbrev contains_type : List StaticType → StaticType → Bool
contains_type ts t = any (λ u. type_eq u t) ts

-- The attribute and the static of a comparison, in either order; two attributes are none.
abbrev pub operands : Expr → Expr → Option (Attribute × Static)
operands (attribute a) (static s) = some (a, s)
operands (static s) (attribute a) = some (a, s)
operands _ _ = none

unfoldable pub get_operands_from_binary_operation :
    Expr → Operator → Operator → Option (Attribute × Static)
unfolding any op_eq
get_operands_from_binary_operation (binary op l r c b) op_scalar op_array =
    if contains_op (op_scalar ∷ op_array ∷ []) op then operands l r else none
get_operands_from_binary_operation e op_scalar op_array = none

-- One of the four rewritings: the outer operator, the scalar and the array one, and the types that
-- its statics are restricted to, where there are any.
pub record Rule : Type 0 where
  pub outer : Operator
  pub scalar : Operator
  pub array : Operator
  pub restrict_types : List StaticType

-- No restriction, or one that the type of the static meets.
unfoldable pub allowed : List StaticType → Static → Bool
unfolding any type_eq type_of
allowed [] v = true
allowed (t ∷ ts) v = contains_type (t ∷ ts) (type_of v)

module _ (rt : Runtime) where
  -- The array operation for the joined static, where there is one.
  unfoldable pub array_node : Rule → Attribute → Option Static → Option Expr
  unfolding new_binary_operation
  array_node rule attr none = none
  array_node rule attr (some values) =
      some (new_binary_operation rt rule.array (attribute attr) (static values))

  -- Two comparisons of one attribute with statics of the types that the rule allows.
  unfoldable pub join :
      Rule → Option (Attribute × Static) → Option (Attribute × Static) → Option Expr
  unfolding attribute_eq append allowed array_node
  join rule (some (attr_lhs, val_lhs)) (some (attr_rhs, val_rhs)) =
      if attribute_eq attr_lhs attr_rhs
        && (allowed rule.restrict_types val_lhs && allowed rule.restrict_types val_rhs)
      then array_node rule attr_lhs (append val_lhs val_rhs)
      else none
  join rule _ _ = none

  -- The array operation for two comparisons, or `none` where the code returns its argument.
  unfoldable pub array_equivalent : Rule → Expr → Expr → Option Expr
  unfolding get_operands_from_binary_operation join
  array_equivalent rule lhs rhs =
      join rule (get_operands_from_binary_operation lhs rule.scalar rule.array)
        (get_operands_from_binary_operation rhs rule.scalar rule.array)

  unfoldable pub counted : Expr → Option Expr → Expr × ℕ
  counted e none = (e, 0)
  counted e (some e') = (e', 1)

  unfoldable pub rewrite_binary_operations_to_array_equivalent : Rule → Expr → Expr × ℕ
  unfolding array_equivalent op_eq counted
  rewrite_binary_operations_to_array_equivalent rule (binary op l r c b) =
      if op_eq op rule.outer
      then counted (binary op l r c b) (array_equivalent rule l r)
      else (binary op l r c b, 0)
  rewrite_binary_operations_to_array_equivalent rule e = (e, 0)

abbrev pub or_to_in : Rule
or_to_in = record { outer = op_or; scalar = op_equal; array = op_in; restrict_types = [] }

abbrev pub and_to_not_in : Rule
and_to_not_in = record {
  outer = op_and;
  scalar = op_not_equal;
  array = op_not_in;
  restrict_types = [];
}

abbrev text_types : List StaticType
text_types = type_string ∷ type_string_array ∷ []

abbrev pub or_to_match_any : Rule
or_to_match_any = record {
  outer = op_or;
  scalar = op_regex;
  array = op_regex_match_any;
  restrict_types = text_types;
}

abbrev pub and_to_match_none : Rule
and_to_match_none = record {
  outer = op_and;
  scalar = op_not_regex;
  array = op_regex_match_none;
  restrict_types = text_types;
}

abbrev pub rules : List Rule
rules = or_to_in ∷ and_to_not_in ∷ or_to_match_any ∷ and_to_match_none ∷ []

module _ (rt : Runtime) where
  -- The loop over the rewriting functions.
  unfoldable pub apply_rules : List Rule → Expr × ℕ → Expr × ℕ
  unfolding rewrite_binary_operations_to_array_equivalent
  apply_rules [] state = state
  apply_rules (rule ∷ more) (e, n) =
      let (e', m) = rewrite_binary_operations_to_array_equivalent rt rule e in
      apply_rules more (e', n + m)

  -- Post order. A unary operation is descended into only through a pointer.
  unfoldable pub rewrite_field_expression : Expr → Expr × ℕ
  unfolding apply_rules new_binary_operation new_unary_operation
  rewrite_field_expression (binary op l r c b) =
      let (lhs, n) = rewrite_field_expression l in
      let (rhs, m) = rewrite_field_expression r in
      apply_rules rules (new_binary_operation rt op lhs rhs, n + m)
  rewrite_field_expression (unary_ref op e) =
      let (exp, n) = rewrite_field_expression e in
      apply_rules rules (new_unary_operation rt op exp, n)
  rewrite_field_expression e = apply_rules rules (e, 0)
