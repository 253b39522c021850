-- ===== src/Conditions.antt =====
-- traceql/ast_conditions.go: what a filter asks of the storage layer. A request is the part of
-- FetchSpansRequest that extraction changes, and a condition the part of Condition that it fills.
pub mod Fetched
pub mod Hints
use traceql_syntax.Base.{
  Bool, true, false, not, ◌&&◌, ◌||◌, List, [], ◌∷◌, ◌++◌, any, if◌then◌else◌,
}
use traceql_syntax.StaticType.{type_nil, type_boolean, type_eq}
use traceql_syntax.Operator.{
  Operator, op_none, op_and, op_or, op_not_equal, op_exists, op_not_exists, op_eq, is_boolean,
}
use traceql_syntax.Static.{Static, static_bool, type_of}
use traceql_syntax.Attribute.{
  Attribute, Intrinsic, intrinsic_none, intrinsic_span_start_time, intrinsic_eq, new_intrinsic,
}
use traceql_syntax.Base.{ℕ, Text}
use traceql_syntax.Expr.{Expr, binary, unary, unary_ref, static, attribute, is_existence}

pub record Condition : Type 0 where
  pub attr : Attribute
  pub op : Operator
  pub operands : List Static

pub record Request : Type 0 where
  pub conditions : List Condition
  pub all_conditions : Bool

unfoldable pub append_condition : Request → Condition → Request
append_condition req c = record req { conditions = req.conditions ++ (c ∷ []) }

-- Attribute.extractConditions: fetch the attribute, whatever its value is.
unfoldable pub fetch : Attribute → Request → Request
unfolding append_condition
fetch a req = append_condition req (record { attr = a; op = op_none; operands = [] })

-- Whether a comparison with the static only fetches the attribute.
unfoldable pub only_fetches : Operator → Static → Bool
unfolding op_eq is_boolean type_eq type_of
only_fetches op s =
    (type_eq (type_of s) type_nil && op_eq op op_not_equal || not (is_boolean op))
    || type_eq (type_of s) type_boolean && (op_eq op op_or || op_eq op op_and)

-- The condition of an attribute beside a static, on either side.
unfoldable pub compare_attribute : Operator → Attribute → Static → Request → Request
unfolding only_fetches append_condition fetch
compare_attribute op a s req =
    if only_fetches op s
    then fetch a req
    else append_condition req (record { attr = a; op = op; operands = s ∷ [] })

-- The operator of an operation over no attribute: an OR ends the hint that all conditions hold.
unfoldable pub weaken : Operator → Request → Request
unfolding op_eq
weaken op req = record req { all_conditions = req.all_conditions && not (op_eq op op_or) }

-- Existence and its negation are conditions themselves, on an attribute.
unfoldable pub unary_attribute : Operator → Attribute → Request → Request
unfolding append_condition fetch
unary_attribute op a req =
    if is_existence op
    then append_condition req (record { attr = a; op = op; operands = [] })
    else fetch a req

unfoldable pub extract_conditions : Expr → Request → Request
unfolding fetch compare_attribute weaken unary_attribute
extract_conditions (binary op (attribute a) (static s) c b) req = compare_attribute op a s req
extract_conditions (binary op (attribute a) (attribute a') c b) req = fetch a' (fetch a req)
extract_conditions (binary op (attribute a) r c b) req = extract_conditions r (fetch a req)
extract_conditions (binary op (static s) (static s') c b) req = req
extract_conditions (binary op (static s) (attribute a) c b) req = compare_attribute op a s req
extract_conditions (binary op (static s) r c b) req = extract_conditions r req
extract_conditions (binary op l r c b) req =
    weaken op (extract_conditions r (extract_conditions l req))
extract_conditions (unary op (attribute a)) req = unary_attribute op a req
extract_conditions (unary op e) req = extract_conditions e req
extract_conditions (unary_ref op (attribute a)) req = unary_attribute op a req
extract_conditions (unary_ref op e) req = extract_conditions e req
extract_conditions (static s) req = req
extract_conditions (attribute a) req = fetch a req

-- A match-all intrinsic among the conditions.
unfoldable pub has_match_all : List Condition → Bool
unfolding any intrinsic_eq op_eq
has_match_all cs =
    any (λ c. not (intrinsic_eq c.attr.intrinsic intrinsic_none) && op_eq c.op op_none) cs

-- SpansetFilter.extractConditions. `format` writes the name of an unknown intrinsic.
unfoldable pub extract_filter_conditions : (ℕ → Text) → Expr → Request → Request
unfolding extract_conditions has_match_all fetch new_intrinsic
extract_filter_conditions format (static (static_bool true)) req =
    if has_match_all req.conditions
    then req
    else fetch (new_intrinsic format intrinsic_span_start_time) req
extract_filter_conditions format e req = extract_conditions e req
