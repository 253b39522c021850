-- ===== src/Pipeline.antt =====
-- traceql/ast.go: pipelines, and the spanset and scalar expressions in them. The pipeline elements
-- and the spanset expressions are one type, since the latter are the former with a marker.
pub mod Walk
pub mod Spanset
pub mod Filter
pub mod Group
pub mod Aggregates
pub mod Evaluate
pub mod Sound
pub mod Copied
pub mod Filtered
pub mod Executing
pub mod Executed
pub mod Grouped
pub mod Check
pub mod Avoids
pub mod Supported
pub mod Extract
pub mod Requested
pub mod Fetched
pub mod Unique
use traceql_syntax.Base.{Bool, true, false, ◌||◌, List, Option, none, some, if◌then◌else◌}
use traceql_syntax.StaticType.{StaticType, type_int, type_boolean, type_spanset, type_attribute}
use traceql_syntax.Operator.{Operator, is_boolean}
use traceql_syntax.Static.{Static, type_of}
use traceql_syntax.Attribute.{Attribute}
use traceql_syntax.Expr.{Expr, implied_type}

pub data AggregateOp : Type 0 where
  aggregate_count aggregate_max aggregate_min aggregate_sum aggregate_avg : AggregateOp

-- count() has no field expression.
pub record Aggregate : Type 0 where
  pub op : AggregateOp
  pub e : Option Expr

mutual
  -- The elements of a pipeline, in order.
  pub data Pipeline : Type 0 where
    empty : Pipeline
    element : Element → Pipeline → Pipeline

  pub data Element : Type 0 where
    spanset_filter : Expr → Element
    scalar_filter : Operator → Scalar → Scalar → Element
    spanset_operation : Operator → Element → Element → Element
    nested : Pipeline → Element
    group_operation : Expr → Element
    coalesce_operation : Element
    select_operation : List Attribute → Element
    aggregate_element : Aggregate → Element

  pub data Scalar : Type 0 where
    scalar_pipeline : Pipeline → Scalar
    scalar_operation : Operator → Scalar → Scalar → Scalar
    scalar_aggregate : Aggregate → Scalar
    scalar_static : Static → Scalar

mutual
  -- NeedsFullTrace of the elements.
  pub pipeline_needs_full_trace : Pipeline → Bool
  pipeline_needs_full_trace empty = false
  pipeline_needs_full_trace (element e p) = needs_full_trace e || pipeline_needs_full_trace p

  pub needs_full_trace : Element → Bool
  needs_full_trace (nested p) = pipeline_needs_full_trace p
  needs_full_trace (spanset_operation op l r) = true
  needs_full_trace (aggregate_element a) = true
  needs_full_trace (scalar_filter op l r) = scalar_needs_full_trace l || scalar_needs_full_trace r
  needs_full_trace (spanset_filter e) = false
  needs_full_trace (group_operation e) = false
  needs_full_trace coalesce_operation = false
  needs_full_trace (select_operation attrs) = false

  pub scalar_needs_full_trace : Scalar → Bool
  scalar_needs_full_trace (scalar_pipeline p) = pipeline_needs_full_trace p
  scalar_needs_full_trace (scalar_operation op l r) = false
  scalar_needs_full_trace (scalar_aggregate a) = true
  scalar_needs_full_trace (scalar_static s) = false

-- The type of an aggregate: an int for count and where there is no field expression.
unfoldable pub aggregate_type : Aggregate → StaticType
unfolding implied_type
aggregate_type a = elim a.op [
  | aggregate_count ↦ type_int
  | _ ↦ elim a.e [ none ↦ type_int | some e ↦ implied_type e ]
]

abbrev last_type : Element → StaticType
last_type (aggregate_element a) = aggregate_type a
last_type e = type_spanset

-- The type of the last element, where that is an aggregate.
unfoldable pub pipeline_type : Pipeline → StaticType
unfolding aggregate_type
pipeline_type empty = type_spanset
pipeline_type (element e empty) = last_type e
pipeline_type (element e (element f p)) = pipeline_type (element f p)

abbrev known_type : StaticType → StaticType → StaticType
known_type type_attribute t = t
known_type t _ = t

unfoldable pub scalar_type : Scalar → StaticType
unfolding pipeline_type aggregate_type is_boolean type_of
scalar_type (scalar_pipeline p) = pipeline_type p
scalar_type (scalar_operation op l r) =
    let t = known_type (scalar_type l) (scalar_type r) in if is_boolean op then type_boolean else t
scalar_type (scalar_aggregate a) = aggregate_type a
scalar_type (scalar_static s) = type_of s
