-- ===== src/Validate.antt =====
-- traceql/ast_validate.go: the checks of field expressions.
pub mod Results
pub mod Fits
pub mod Kept
pub mod Typed
use traceql_syntax.Base.{Bool, true, false, not, all, codes, Result, ok, err, ◌>>◌}
use traceql_syntax.Runtime.{Runtime}
use traceql_syntax.StaticType.{is_matching_operand}
use traceql_syntax.Operator.{
  Operator, op_regex, op_not_regex, op_not_exists, op_spanset_child, op_spanset_parent,
  op_spanset_descendant, op_spanset_ancestor, op_spanset_sibling, op_spanset_not_child,
  op_spanset_not_parent, op_spanset_not_sibling, op_spanset_not_ancestor, op_spanset_not_descendant,
  op_spanset_union_child, op_spanset_union_parent, op_spanset_union_sibling,
  op_spanset_union_ancestor, op_spanset_union_descendant, binary_types_valid, unary_types_valid,
}
use traceql_syntax.Static.{static_string, static_string_array}
use traceql_syntax.Attribute.{
  Attribute, intrinsic_none, intrinsic_parent, scope_resource, intrinsic_eq, attribute_eq,
  new_scoped_attribute,
}
use traceql_syntax.Expr.{
  Expr, binary, unary, unary_ref, static, attribute, is_existence, implied_type,
}

pub data Invalid : Type 0 where
  illegal_operation type_mismatch illegal_types invalid_regex invalid_regex_type : Invalid
  unsupported_operation intrinsic_is_nil service_name_is_nil unsupported_parent : Invalid
  unsupported_intrinsic : Invalid

abbrev pub Checked : Type 0
Checked = Result Invalid (Unit {0})

abbrev pub guard : Bool → Invalid → Checked
guard true e = ok tt
guard false e = err e

-- The operators that are refused at the end of BinaryOperation.validate.
is_structural : Operator → Bool
is_structural op_spanset_child = true
is_structural op_spanset_parent = true
is_structural op_spanset_descendant = true
is_structural op_spanset_ancestor = true
is_structural op_spanset_sibling = true
is_structural op_spanset_not_child = true
is_structural op_spanset_not_parent = true
is_structural op_spanset_not_sibling = true
is_structural op_spanset_not_ancestor = true
is_structural op_spanset_not_descendant = true
is_structural op_spanset_union_child = true
is_structural op_spanset_union_parent = true
is_structural op_spanset_union_sibling = true
is_structural op_spanset_union_ancestor = true
is_structural op_spanset_union_descendant = true
is_structural _ = false

-- The right operand of a regex must be a static of patterns that compile.
unfoldable pub validate_pattern : Runtime → Expr → Checked
unfolding all
validate_pattern rt (static (static_string p)) = guard (rt.compiles p) invalid_regex
validate_pattern rt (static (static_string_array ps)) = guard (all rt.compiles ps) invalid_regex
validate_pattern rt e = err invalid_regex_type

unfoldable pub validate_regex : Runtime → Operator → Expr → Checked
unfolding validate_pattern
validate_regex rt op_regex r = validate_pattern rt r
validate_regex rt op_not_regex r = validate_pattern rt r
validate_regex rt op r = ok tt

-- The checks of a binary operation whose operands are valid.
unfoldable pub validate_operation : Runtime → Operator → Expr → Expr → Checked
unfolding is_matching_operand binary_types_valid validate_regex is_structural implied_type
validate_operation rt op l r = do
  guard (not (is_existence op)) illegal_operation
  guard (is_matching_operand (implied_type l) (implied_type r)) type_mismatch
  guard (binary_types_valid op (implied_type l) (implied_type r)) illegal_types
  validate_regex rt op r
  guard (not (is_structural op)) unsupported_operation

-- `x = nil` on what cannot be nil.
unfoldable pub validate_nil_test : Operator → Expr → Checked
unfolding intrinsic_eq attribute_eq new_scoped_attribute
validate_nil_test op_not_exists (attribute a) = do
  guard (intrinsic_eq a.intrinsic intrinsic_none) intrinsic_is_nil
  guard (not (attribute_eq a (new_scoped_attribute scope_resource false (codes "service.name"))))
      service_name_is_nil
validate_nil_test op e = ok tt

-- unaryTypesValid holds of the attribute type, so the early return for it is the same test.
unfoldable pub validate_unary : Operator → Expr → Checked
unfolding validate_nil_test unary_types_valid implied_type
validate_unary op e = do
  validate_nil_test op e
  guard (unary_types_valid op (implied_type e)) illegal_types

unfoldable pub validate_attribute : Attribute → Checked
unfolding intrinsic_eq
validate_attribute a = do
  guard (not a.parent) unsupported_parent
  guard (not (intrinsic_eq a.intrinsic intrinsic_parent)) unsupported_intrinsic

module _ (rt : Runtime) where
  unfoldable pub validate : Expr → Checked
  unfolding validate_operation validate_unary validate_attribute
  validate (binary op l r c b) = do validate l; validate r; validate_operation rt op l r
  validate (unary op e) = do validate e; validate_unary op e
  validate (unary_ref op e) = do validate e; validate_unary op e
  validate (static s) = ok tt
  validate (attribute a) = validate_attribute a

abbrev pub is_ok {ℓ} : {E : Type 0} {A : Type ℓ} → Result E A → Bool
is_ok (ok a) = true
is_ok (err e) = false
