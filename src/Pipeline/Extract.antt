-- ===== src/Pipeline/Extract.antt =====
-- traceql/ast_conditions.go and traceql/ast.go: what a pipeline asks of the storage layer, in two
-- passes; of FetchSpansRequest, the fields that extraction changes.
use traceql_syntax.Base.{
  ℕ, Bool, true, false, ◌&&◌, ◌||◌, List, [], ◌∷◌, ◌++◌, any, Option, none, some, Text,
  if◌then◌else◌,
}
use traceql_syntax.Operator.{
  Operator, op_none, op_eq, op_spanset_child, op_spanset_parent, op_spanset_descendant,
  op_spanset_ancestor, op_spanset_sibling, op_spanset_not_child, op_spanset_not_parent,
  op_spanset_not_sibling, op_spanset_not_ancestor, op_spanset_not_descendant,
  op_spanset_union_child, op_spanset_union_parent, op_spanset_union_sibling,
  op_spanset_union_ancestor, op_spanset_union_descendant,
}
use traceql_syntax.Attribute.{
  Attribute, Intrinsic, attribute_eq, new_intrinsic, intrinsic_structural_descendant,
  intrinsic_structural_child, intrinsic_structural_sibling,
}
use traceql_syntax.Conditions.{
  Condition, Request, fetch, extract_conditions, extract_filter_conditions,
}
use traceql_syntax.Pipeline.{
  Pipeline, empty, element, Element, spanset_filter, scalar_filter, spanset_operation, nested,
  group_operation, coalesce_operation, select_operation, aggregate_element, Scalar, scalar_pipeline,
  scalar_operation, scalar_aggregate, scalar_static, Aggregate,
}

-- The request of the first pass, and the conditions of the second.
pub record FetchRequest : Type 0 where
  pub first : Request
  pub second_pass_conditions : List Condition

abbrev pub on_first : (Request → Request) → FetchRequest → FetchRequest
on_first f req = record req { first = f req.first }

unfoldable pub without_hint : FetchRequest → FetchRequest
without_hint req = record req { first = record (req.first) { all_conditions = false } }

unfoldable pub has_attribute_with_op : FetchRequest → Attribute → Operator → Bool
unfolding any attribute_eq op_eq
has_attribute_with_op req a o =
    any (λ c. attribute_eq c.attr a && op_eq c.op o) req.first.conditions
    || any (λ c. attribute_eq c.attr a && op_eq c.op o) req.second_pass_conditions

-- Conditions for the second pass, except where the attribute is fetched with any value.
unfoldable pub copy_conditions : List Condition → FetchRequest → FetchRequest
unfolding has_attribute_with_op
copy_conditions [] req = req
copy_conditions (c ∷ cs) req = copy_conditions cs (
    if has_attribute_with_op req c.attr op_none
    then req
    else record req { second_pass_conditions = req.second_pass_conditions ++ (c ∷ []) })

abbrev pub empty_request : FetchRequest
empty_request = record {
  first = record { conditions = []; all_conditions = false };
  second_pass_conditions = [];
}

-- extractToSecondPass, on the request that the element made of an empty one.
unfoldable pub to_second_pass : FetchRequest → FetchRequest → FetchRequest
unfolding copy_conditions
to_second_pass req2 req =
    copy_conditions req2.second_pass_conditions (copy_conditions req2.first.conditions req)

abbrev pub is_select : Element → Bool
is_select (select_operation attrs) = true
is_select e = false

unfoldable pub fetch_attributes : List Attribute → Request → Request
unfolding fetch
fetch_attributes [] req = req
fetch_attributes (a ∷ as') req = fetch_attributes as' (fetch a req)

unfoldable pub extract_aggregate : Aggregate → FetchRequest → FetchRequest
unfolding without_hint extract_conditions
extract_aggregate a req = elim a.e [
  | none ↦ without_hint req
  | some e ↦ on_first (extract_conditions e) (without_hint req)
]

-- The intrinsic of a structural operator; the other operators have none.
unfoldable pub structure_of : Operator → Option Intrinsic
structure_of op_spanset_descendant = some intrinsic_structural_descendant
structure_of op_spanset_ancestor = some intrinsic_structural_descendant
structure_of op_spanset_not_descendant = some intrinsic_structural_descendant
structure_of op_spanset_not_ancestor = some intrinsic_structural_descendant
structure_of op_spanset_union_descendant = some intrinsic_structural_descendant
structure_of op_spanset_union_ancestor = some intrinsic_structural_descendant
structure_of op_spanset_child = some intrinsic_structural_child
structure_of op_spanset_parent = some intrinsic_structural_child
structure_of op_spanset_not_child = some intrinsic_structural_child
structure_of op_spanset_not_parent = some intrinsic_structural_child
structure_of op_spanset_union_child = some intrinsic_structural_child
structure_of op_spanset_union_parent = some intrinsic_structural_child
structure_of op_spanset_sibling = some intrinsic_structural_sibling
structure_of op_spanset_not_sibling = some intrinsic_structural_sibling
structure_of op_spanset_union_sibling = some intrinsic_structural_sibling
structure_of op = none

unfoldable pub fetch_structure : (ℕ → Text) → Operator → Request → Request
unfolding structure_of fetch new_intrinsic
fetch_structure format op req = elim (structure_of op) [
  | none ↦ req
  | some i ↦ fetch (new_intrinsic format i) req
]

-- An element before the first select, and one after it.
unfoldable pub in_pass : Bool → (FetchRequest → FetchRequest) → FetchRequest → FetchRequest
unfolding to_second_pass
in_pass false f req = f req
in_pass true f req = to_second_pass (f empty_request) req

unfoldable mutual
  unfolding in_pass extract_filter_conditions extract_conditions without_hint fetch_structure
      extract_aggregate fetch_attributes

  pub extract_pipeline : (ℕ → Text) → Bool → Pipeline → FetchRequest → FetchRequest
  extract_pipeline format second empty req = req
  extract_pipeline format second (element e p) req =
      extract_pipeline format (second || is_select e) p
        (in_pass second (extract_element format e) req)

  pub extract_element : (ℕ → Text) → Element → FetchRequest → FetchRequest
  extract_element format (spanset_filter e) req = on_first (extract_filter_conditions format e) req
  extract_element format (scalar_filter op l r) req =
      extract_scalar format r (extract_scalar format l req)
  extract_element format (spanset_operation op l r) req = without_hint (
      extract_element format r
        (extract_element format l (on_first (fetch_structure format op) req)))
  extract_element format (nested p) req = extract_pipeline format false p req
  extract_element format (group_operation e) req =
      without_hint (on_first (extract_conditions e) req)
  extract_element format coalesce_operation req = req
  extract_element format (select_operation attrs) req = record req {
    second_pass_conditions =
        req.second_pass_conditions ++ (fetch_attributes attrs (empty_request.first)).conditions;
  }
  extract_element format (aggregate_element a) req = extract_aggregate a req

  pub extract_scalar : (ℕ → Text) → Scalar → FetchRequest → FetchRequest
  extract_scalar format (scalar_pipeline p) req = extract_pipeline format false p req
  extract_scalar format (scalar_operation op l r) req =
      extract_scalar format r (extract_scalar format l req)
  extract_scalar format (scalar_aggregate a) req = extract_aggregate a req
  extract_scalar format (scalar_static s) req = req
