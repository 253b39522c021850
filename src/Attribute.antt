-- ===== src/Attribute.antt =====
-- traceql/enum_attributes.go and the attributes of traceql/ast.go: scopes, intrinsics, their texts
-- and the attributes that name them.

pub mod Equality
pub mod Names
use traceql_syntax.Base.{
  ℕ, Bool, true, false, ◌&&◌, ◌++◌, Text, codes, list_eq, ◌==◌, if◌then◌else◌,
}
use traceql_syntax.StaticType.{
  StaticType, type_nil, type_attribute, type_int, type_string, type_duration, type_status,
  type_kind,
}
use traceql_syntax.Static.{bool_eq}

pub data AttributeScope : Type 0 where
  scope_none scope_trace scope_resource scope_span scope_event scope_link : AttributeScope
  scope_instrumentation scope_unknown : AttributeScope

unfoldable pub scope_code : AttributeScope → ℕ
scope_code scope_none = 0
scope_code scope_trace = 1
scope_code scope_resource = 2
scope_code scope_span = 3
scope_code scope_event = 4
scope_code scope_link = 5
scope_code scope_instrumentation = 6
scope_code scope_unknown = 7

unfoldable pub scope_to_string : (ℕ → Text) → AttributeScope → Text
unfolding scope_code
scope_to_string decimal scope_none = codes "none"
scope_to_string decimal scope_trace = codes "trace"
scope_to_string decimal scope_resource = codes "resource"
scope_to_string decimal scope_span = codes "span"
scope_to_string decimal scope_event = codes "event"
scope_to_string decimal scope_link = codes "link"
scope_to_string decimal scope_instrumentation = codes "instrumentation"
scope_to_string decimal s = codes "att(" ++ (decimal (scope_code s) ++ codes ").")

unfoldable pub attribute_scope_from_string : Text → AttributeScope
unfolding list_eq
attribute_scope_from_string s =
    if list_eq s (codes "trace")
    then scope_trace
    else if list_eq s (codes "span")
    then scope_span
    else if list_eq s (codes "resource")
    then scope_resource
    else if list_eq s (codes "event")
    then scope_event
    else if list_eq s (codes "link")
    then scope_link
    else if list_eq s (codes "instrumentation")
    then scope_instrumentation
    else if list_eq s (codes "")
    then scope_none
    else if list_eq s (codes "none")
    then scope_none
    else scope_unknown

pub data Intrinsic : Type 0 where
  intrinsic_none intrinsic_duration intrinsic_name intrinsic_status : Intrinsic
  intrinsic_status_message intrinsic_kind intrinsic_child_count : Intrinsic
  intrinsic_trace_root_service intrinsic_trace_root_span : Intrinsic
  intrinsic_trace_duration intrinsic_nested_set_left intrinsic_nested_set_right : Intrinsic
  intrinsic_nested_set_parent intrinsic_event_name : Intrinsic
  intrinsic_event_time_since_start intrinsic_link_span_id : Intrinsic
  intrinsic_link_trace_id intrinsic_instrumentation_name : Intrinsic
  intrinsic_instrumentation_version intrinsic_parent : Intrinsic
  intrinsic_structural_descendant intrinsic_structural_sibling : Intrinsic
  intrinsic_structural_child intrinsic_trace_id intrinsic_span_id : Intrinsic
  intrinsic_parent_id scoped_intrinsic_span_status : Intrinsic
  scoped_intrinsic_span_status_message scoped_intrinsic_span_duration : Intrinsic
  scoped_intrinsic_span_name scoped_intrinsic_span_kind : Intrinsic
  scoped_intrinsic_trace_root_name scoped_intrinsic_trace_root_service : Intrinsic
  scoped_intrinsic_trace_duration intrinsic_trace_start_time : Intrinsic
  intrinsic_span_start_time intrinsic_service_stats : Intrinsic

-- The value of the constant.
unfoldable pub intrinsic_code : Intrinsic → ℕ
intrinsic_code intrinsic_none = 0
intrinsic_code intrinsic_duration = 1
intrinsic_code intrinsic_name = 2
intrinsic_code intrinsic_status = 3
intrinsic_code intrinsic_status_message = 4
intrinsic_code intrinsic_kind = 5
intrinsic_code intrinsic_child_count = 6
intrinsic_code intrinsic_trace_root_service = 7
intrinsic_code intrinsic_trace_root_span = 8
intrinsic_code intrinsic_trace_duration = 9
intrinsic_code intrinsic_nested_set_left = 10
intrinsic_code intrinsic_nested_set_right = 11
intrinsic_code intrinsic_nested_set_parent = 12
intrinsic_code intrinsic_event_name = 13
intrinsic_code intrinsic_event_time_since_start = 14
intrinsic_code intrinsic_link_span_id = 15
intrinsic_code intrinsic_link_trace_id = 16
intrinsic_code intrinsic_instrumentation_name = 17
intrinsic_code intrinsic_instrumentation_version = 18
intrinsic_code intrinsic_parent = 19
intrinsic_code intrinsic_structural_descendant = 20
intrinsic_code intrinsic_structural_sibling = 21
intrinsic_code intrinsic_structural_child = 22
intrinsic_code intrinsic_trace_id = 23
intrinsic_code intrinsic_span_id = 24
intrinsic_code intrinsic_parent_id = 25
intrinsic_code scoped_intrinsic_span_status = 26
intrinsic_code scoped_intrinsic_span_status_message = 27
intrinsic_code scoped_intrinsic_span_duration = 28
intrinsic_code scoped_intrinsic_span_name = 29
intrinsic_code scoped_intrinsic_span_kind = 30
intrinsic_code scoped_intrinsic_trace_root_name = 31
intrinsic_code scoped_intrinsic_trace_root_service = 32
intrinsic_code scoped_intrinsic_trace_duration = 33
intrinsic_code intrinsic_trace_start_time = 34
intrinsic_code intrinsic_span_start_time = 35
intrinsic_code intrinsic_service_stats = 36

unfoldable pub intrinsic_eq : Intrinsic → Intrinsic → Bool
unfolding intrinsic_code
intrinsic_eq a b = intrinsic_code a == intrinsic_code b

unfoldable pub intrinsic_to_string : (ℕ → Text) → Intrinsic → Text
unfolding intrinsic_code
intrinsic_to_string decimal intrinsic_none = codes "none"
intrinsic_to_string decimal intrinsic_duration = codes "duration"
intrinsic_to_string decimal intrinsic_name = codes "name"
intrinsic_to_string decimal intrinsic_status = codes "status"
intrinsic_to_string decimal intrinsic_status_message = codes "statusMessage"
intrinsic_to_string decimal intrinsic_kind = codes "kind"
intrinsic_to_string decimal intrinsic_child_count = codes "span:childCount"
intrinsic_to_string decimal intrinsic_event_name = codes "event:name"
intrinsic_to_string decimal intrinsic_event_time_since_start = codes "event:timeSinceStart"
intrinsic_to_string decimal intrinsic_link_span_id = codes "link:spanID"
intrinsic_to_string decimal intrinsic_link_trace_id = codes "link:traceID"
intrinsic_to_string decimal intrinsic_parent = codes "parent"
intrinsic_to_string decimal intrinsic_trace_root_service = codes "rootServiceName"
intrinsic_to_string decimal intrinsic_trace_root_span = codes "rootName"
intrinsic_to_string decimal intrinsic_trace_duration = codes "traceDuration"
intrinsic_to_string decimal intrinsic_trace_id = codes "trace:id"
intrinsic_to_string decimal intrinsic_trace_start_time = codes "traceStartTime"
intrinsic_to_string decimal scoped_intrinsic_span_status = codes "span:status"
intrinsic_to_string decimal scoped_intrinsic_span_status_message = codes "span:statusMessage"
intrinsic_to_string decimal scoped_intrinsic_span_duration = codes "span:duration"
intrinsic_to_string decimal scoped_intrinsic_span_name = codes "span:name"
intrinsic_to_string decimal scoped_intrinsic_span_kind = codes "span:kind"
intrinsic_to_string decimal scoped_intrinsic_trace_root_name = codes "trace:rootName"
intrinsic_to_string decimal scoped_intrinsic_trace_root_service = codes "trace:rootService"
intrinsic_to_string decimal scoped_intrinsic_trace_duration = codes "trace:duration"
intrinsic_to_string decimal intrinsic_span_id = codes "span:id"
intrinsic_to_string decimal intrinsic_parent_id = codes "span:parentID"
intrinsic_to_string decimal intrinsic_instrumentation_name = codes "instrumentation:name"
intrinsic_to_string decimal intrinsic_instrumentation_version = codes "instrumentation:version"
intrinsic_to_string decimal intrinsic_span_start_time = codes "spanStartTime"
intrinsic_to_string decimal intrinsic_nested_set_left = codes "nestedSetLeft"
intrinsic_to_string decimal intrinsic_nested_set_right = codes "nestedSetRight"
intrinsic_to_string decimal intrinsic_nested_set_parent = codes "nestedSetParent"
intrinsic_to_string decimal i = codes "intrinsic(" ++ (decimal (intrinsic_code i) ++ codes ")")

unfoldable pub intrinsic_from_string : Text → Intrinsic
unfolding list_eq
intrinsic_from_string s =
    if list_eq s (codes "duration")
    then intrinsic_duration
    else if list_eq s (codes "name")
    then intrinsic_name
    else if list_eq s (codes "status")
    then intrinsic_status
    else if list_eq s (codes "statusMessage")
    then intrinsic_status_message
    else if list_eq s (codes "kind")
    then intrinsic_kind
    else if list_eq s (codes "event:name")
    then intrinsic_event_name
    else if list_eq s (codes "event:timeSinceStart")
    then intrinsic_event_time_since_start
    else if list_eq s (codes "link:spanID")
    then intrinsic_link_span_id
    else if list_eq s (codes "link:traceID")
    then intrinsic_link_trace_id
    else if list_eq s (codes "parent")
    then intrinsic_parent
    else if list_eq s (codes "rootServiceName")
    then intrinsic_trace_root_service
    else if list_eq s (codes "rootName")
    then intrinsic_trace_root_span
    else if list_eq s (codes "traceDuration")
    then intrinsic_trace_duration
    else if list_eq s (codes "trace:id")
    then intrinsic_trace_id
    else if list_eq s (codes "traceStartTime")
    then intrinsic_trace_start_time
    else if list_eq s (codes "span:id")
    then intrinsic_span_id
    else if list_eq s (codes "span:parentID")
    then intrinsic_parent_id
    else if list_eq s (codes "span:status")
    then intrinsic_status
    else if list_eq s (codes "span:statusMessage")
    then intrinsic_status_message
    else if list_eq s (codes "span:duration")
    then intrinsic_duration
    else if list_eq s (codes "span:name")
    then intrinsic_name
    else if list_eq s (codes "span:kind")
    then intrinsic_kind
    else if list_eq s (codes "span:childCount")
    then intrinsic_child_count
    else if list_eq s (codes "trace:rootName")
    then intrinsic_trace_root_span
    else if list_eq s (codes "trace:rootService")
    then intrinsic_trace_root_service
    else if list_eq s (codes "trace:duration")
    then intrinsic_trace_duration
    else if list_eq s (codes "instrumentation:name")
    then intrinsic_instrumentation_name
    else if list_eq s (codes "instrumentation:version")
    then intrinsic_instrumentation_version
    else if list_eq s (codes "spanStartTime")
    then intrinsic_span_start_time
    else if list_eq s (codes "nestedSetLeft")
    then intrinsic_nested_set_left
    else if list_eq s (codes "nestedSetRight")
    then intrinsic_nested_set_right
    else if list_eq s (codes "nestedSetParent")
    then intrinsic_nested_set_parent
    else intrinsic_none

pub record Attribute : Type 0 where
  pub name : Text
  pub scope : AttributeScope
  pub parent : Bool
  pub intrinsic : Intrinsic

-- Go's == on attributes.
unfoldable pub attribute_eq : Attribute → Attribute → Bool
unfolding list_eq bool_eq intrinsic_eq scope_code
attribute_eq a b =
    list_eq a.name b.name
    && (scope_code a.scope == scope_code b.scope)
    && (bool_eq a.parent b.parent && intrinsic_eq a.intrinsic b.intrinsic)

unfoldable pub new_attribute : Text → Attribute
new_attribute att = record {
  name = att;
  scope = scope_none;
  parent = false;
  intrinsic = intrinsic_none;
}

-- The scope and parent under which the name is parsed for an intrinsic.
is_unscoped : AttributeScope → Bool → Bool
is_unscoped scope_none false = true
is_unscoped _ _ = false

unfoldable pub new_scoped_attribute : AttributeScope → Bool → Text → Attribute
unfolding is_unscoped intrinsic_from_string
new_scoped_attribute scope parent att = record {
  name = att;
  scope = scope;
  parent = parent;
  intrinsic = if is_unscoped scope parent then intrinsic_from_string att else intrinsic_none;
}

unfoldable pub new_intrinsic : (ℕ → Text) → Intrinsic → Attribute
unfolding intrinsic_to_string
new_intrinsic decimal n = record {
  name = intrinsic_to_string decimal n;
  scope = scope_none;
  parent = false;
  intrinsic = n;
}

-- The switch of Attribute.impliedType.
unfoldable pub intrinsic_type : Intrinsic → StaticType
intrinsic_type intrinsic_duration = type_duration
intrinsic_type intrinsic_child_count = type_int
intrinsic_type intrinsic_name = type_string
intrinsic_type intrinsic_status = type_status
intrinsic_type intrinsic_status_message = type_string
intrinsic_type intrinsic_kind = type_kind
intrinsic_type intrinsic_event_name = type_string
intrinsic_type intrinsic_event_time_since_start = type_duration
intrinsic_type intrinsic_link_trace_id = type_string
intrinsic_type intrinsic_link_span_id = type_string
intrinsic_type intrinsic_parent = type_nil
intrinsic_type intrinsic_trace_duration = type_duration
intrinsic_type intrinsic_trace_root_service = type_string
intrinsic_type intrinsic_trace_root_span = type_string
intrinsic_type intrinsic_nested_set_left = type_int
intrinsic_type intrinsic_nested_set_right = type_int
intrinsic_type intrinsic_nested_set_parent = type_int
intrinsic_type intrinsic_trace_id = type_string
intrinsic_type intrinsic_span_id = type_string
intrinsic_type intrinsic_parent_id = type_string
intrinsic_type _ = type_attribute
