-- ===== src/Pipeline/Check.antt =====
-- traceql/ast_validate.go: the checks of pipelines, spanset expressions and scalars.
use traceql_syntax.Base.{
  Bool, true, false, not, ◌||◌, List, [], ◌∷◌, none, some, Result, ok, err, ◌>>◌,
}
use traceql_syntax.Runtime.{Runtime}
use traceql_syntax.StaticType.{
  StaticType, type_attribute, type_boolean, type_eq, is_numeric, is_matching_operand,
}
use traceql_syntax.Operator.{Operator, binary_types_valid}
use traceql_syntax.Attribute.{Attribute}
use traceql_syntax.Expr.{Expr, references_span, implied_type, is_existence}
use traceql_syntax.Validate.{Invalid, Checked, validate, validate_attribute}
use traceql_syntax.Pipeline.{
  Pipeline, empty, element, Element, spanset_filter, scalar_filter, spanset_operation, nested,
  group_operation, coalesce_operation, select_operation, aggregate_element, Scalar, scalar_pipeline,
  scalar_operation, scalar_aggregate, scalar_static, Aggregate, scalar_type,
}

pub data PipelineInvalid : Type 0 where
  invalid_field : Invalid → PipelineInvalid
  group_without_span filter_not_boolean aggregate_not_numeric : PipelineInvalid
  aggregate_without_span illegal_operation type_mismatch illegal_types : PipelineInvalid
  unsupported_lhs unsupported_rhs : PipelineInvalid

abbrev pub PipelineChecked : Type 0
PipelineChecked = Result PipelineInvalid (Unit {0})

abbrev require : Bool → PipelineInvalid → PipelineChecked
require true e = ok tt
require false e = err e

unfoldable pub of_field : Checked → PipelineChecked
of_field (ok a) = ok tt
of_field (err e) = err (invalid_field e)

unfoldable pub validate_group : Runtime → Expr → PipelineChecked
unfolding references_span of_field validate
validate_group rt e = do require (references_span e) group_without_span; of_field (validate rt e)

unfoldable pub validate_attributes : List Attribute → PipelineChecked
unfolding of_field validate_attribute
validate_attributes [] = ok tt
validate_attributes (a ∷ as') = do of_field (validate_attribute a); validate_attributes as'

unfoldable pub validate_filter : Runtime → Expr → PipelineChecked
unfolding of_field validate implied_type type_eq
validate_filter rt e = do
  of_field (validate rt e)
  require (type_eq (implied_type e) type_attribute || type_eq (implied_type e) type_boolean)
      filter_not_boolean

-- All five operators are supported.
unfoldable pub validate_aggregate : Runtime → Aggregate → PipelineChecked
unfolding of_field validate implied_type type_eq is_numeric references_span
validate_aggregate rt a = elim a.e [
  | none ↦ ok tt
  | some e ↦ do
    of_field (validate rt e)
    require (type_eq (implied_type e) type_attribute || is_numeric (implied_type e))
        aggregate_not_numeric
    require (references_span e) aggregate_without_span
]

-- The types of two scalars under an operator.
unfoldable pub validate_types : Operator → StaticType → StaticType → PipelineChecked
unfolding is_matching_operand binary_types_valid
validate_types op l r = do
  require (is_matching_operand l r) type_mismatch
  require (binary_types_valid op l r) illegal_types

-- Only an aggregate beside a static is supported.
unfoldable pub validate_sides : Scalar → Scalar → PipelineChecked
validate_sides (scalar_aggregate a) (scalar_static s) = ok tt
validate_sides (scalar_aggregate a) r = err unsupported_rhs
validate_sides l r = err unsupported_lhs

unfoldable mutual
  unfolding validate_filter validate_group validate_attributes validate_aggregate validate_types
      validate_sides scalar_type

  pub validate_pipeline : Runtime → Pipeline → PipelineChecked
  validate_pipeline rt empty = ok tt
  validate_pipeline rt (element e p) = do validate_element rt e; validate_pipeline rt p

  pub validate_element : Runtime → Element → PipelineChecked
  validate_element rt (spanset_filter e) = validate_filter rt e
  validate_element rt (scalar_filter op l r) = do
    validate_scalar rt l
    validate_scalar rt r
    validate_types op (scalar_type l) (scalar_type r)
    validate_sides l r
  validate_element rt (spanset_operation op l r) = do
    validate_element rt l
    require (not (is_existence op)) illegal_operation
    validate_element rt r
  validate_element rt (nested p) = validate_pipeline rt p
  validate_element rt (group_operation e) = validate_group rt e
  validate_element rt coalesce_operation = ok tt
  validate_element rt (select_operation attrs) = validate_attributes attrs
  validate_element rt (aggregate_element a) = validate_aggregate rt a

  pub validate_scalar : Runtime → Scalar → PipelineChecked
  validate_scalar rt (scalar_pipeline p) = validate_pipeline rt p
  validate_scalar rt (scalar_operation op l r) = do
    validate_scalar rt l
    validate_scalar rt r
    require (not (is_existence op)) illegal_operation
    validate_types op (scalar_type l) (scalar_type r)
  validate_scalar rt (scalar_aggregate a) = validate_aggregate rt a
  validate_scalar rt (scalar_static s) = ok tt
