-- ===== src/Attribute/Names.antt =====
-- The names of intrinsics and scopes, printed and parsed.
use traceql_syntax.Base.{ℕ, Text, ◌≡◌, refl}
use traceql_syntax.Attribute.{
  AttributeScope, scope_to_string, attribute_scope_from_string, Intrinsic, intrinsic_to_string,
  intrinsic_from_string, intrinsic_none, intrinsic_duration, intrinsic_name, intrinsic_status,
  intrinsic_status_message, intrinsic_kind, intrinsic_child_count, intrinsic_trace_root_service,
  intrinsic_trace_root_span, intrinsic_trace_duration, intrinsic_nested_set_left,
  intrinsic_nested_set_right, intrinsic_nested_set_parent, intrinsic_event_name,
  intrinsic_event_time_since_start, intrinsic_link_span_id, intrinsic_link_trace_id,
  intrinsic_instrumentation_name, intrinsic_instrumentation_version, intrinsic_parent,
  intrinsic_structural_descendant, intrinsic_structural_sibling, intrinsic_structural_child,
  intrinsic_trace_id, intrinsic_span_id, intrinsic_parent_id, scoped_intrinsic_span_status,
  scoped_intrinsic_span_status_message, scoped_intrinsic_span_duration, scoped_intrinsic_span_name,
  scoped_intrinsic_span_kind, scoped_intrinsic_trace_root_name, scoped_intrinsic_trace_root_service,
  scoped_intrinsic_trace_duration, intrinsic_trace_start_time, intrinsic_span_start_time,
  intrinsic_service_stats, scope_none, scope_trace, scope_resource, scope_span, scope_event,
  scope_link, scope_instrumentation, scope_unknown,
}

-- The intrinsic that the parser gives for a name: no scoped one, and none for those without a name.
abbrev pub named : Intrinsic → Intrinsic
named scoped_intrinsic_span_status = intrinsic_status
named scoped_intrinsic_span_status_message = intrinsic_status_message
named scoped_intrinsic_span_duration = intrinsic_duration
named scoped_intrinsic_span_name = intrinsic_name
named scoped_intrinsic_span_kind = intrinsic_kind
named scoped_intrinsic_trace_root_name = intrinsic_trace_root_span
named scoped_intrinsic_trace_root_service = intrinsic_trace_root_service
named scoped_intrinsic_trace_duration = intrinsic_trace_duration
named intrinsic_structural_descendant = intrinsic_none
named intrinsic_structural_sibling = intrinsic_none
named intrinsic_structural_child = intrinsic_none
named intrinsic_service_stats = intrinsic_none
named i = i

intrinsic_back :
    (decimal : ℕ → Text) (i : Intrinsic)
    → intrinsic_from_string (intrinsic_to_string decimal i) ≡ named i
unfolding intrinsic_from_string intrinsic_to_string
intrinsic_back decimal intrinsic_none = refl
intrinsic_back decimal intrinsic_duration = refl
intrinsic_back decimal intrinsic_name = refl
intrinsic_back decimal intrinsic_status = refl
intrinsic_back decimal intrinsic_status_message = refl
intrinsic_back decimal intrinsic_kind = refl
intrinsic_back decimal intrinsic_child_count = refl
intrinsic_back decimal intrinsic_trace_root_service = refl
intrinsic_back decimal intrinsic_trace_root_span = refl
intrinsic_back decimal intrinsic_trace_duration = refl
intrinsic_back decimal intrinsic_nested_set_left = refl
intrinsic_back decimal intrinsic_nested_set_right = refl
intrinsic_back decimal intrinsic_nested_set_parent = refl
intrinsic_back decimal intrinsic_event_name = refl
intrinsic_back decimal intrinsic_event_time_since_start = refl
intrinsic_back decimal intrinsic_link_span_id = refl
intrinsic_back decimal intrinsic_link_trace_id = refl
intrinsic_back decimal intrinsic_instrumentation_name = refl
intrinsic_back decimal intrinsic_instrumentation_version = refl
intrinsic_back decimal intrinsic_parent = refl
intrinsic_back decimal intrinsic_structural_descendant = refl
intrinsic_back decimal intrinsic_structural_sibling = refl
intrinsic_back decimal intrinsic_structural_child = refl
intrinsic_back decimal intrinsic_trace_id = refl
intrinsic_back decimal intrinsic_span_id = refl
intrinsic_back decimal intrinsic_parent_id = refl
intrinsic_back decimal scoped_intrinsic_span_status = refl
intrinsic_back decimal scoped_intrinsic_span_status_message = refl
intrinsic_back decimal scoped_intrinsic_span_duration = refl
intrinsic_back decimal scoped_intrinsic_span_name = refl
intrinsic_back decimal scoped_intrinsic_span_kind = refl
intrinsic_back decimal scoped_intrinsic_trace_root_name = refl
intrinsic_back decimal scoped_intrinsic_trace_root_service = refl
intrinsic_back decimal scoped_intrinsic_trace_duration = refl
intrinsic_back decimal intrinsic_trace_start_time = refl
intrinsic_back decimal intrinsic_span_start_time = refl
intrinsic_back decimal intrinsic_service_stats = refl

scope_back :
    (decimal : ℕ → Text) (s : AttributeScope)
    → attribute_scope_from_string (scope_to_string decimal s) ≡ s
unfolding attribute_scope_from_string scope_to_string
scope_back decimal scope_none = refl
scope_back decimal scope_trace = refl
scope_back decimal scope_resource = refl
scope_back decimal scope_span = refl
scope_back decimal scope_event = refl
scope_back decimal scope_link = refl
scope_back decimal scope_instrumentation = refl
scope_back decimal scope_unknown = refl

-- Parsing what is printed for an intrinsic gives the intrinsic back, or for a scoped spelling the one
-- that it stands for, or no intrinsic for the structural ones and the service stats, which have no
-- name; and parsing what is printed for a scope gives the scope back. Numbers print in any way.
pub intrinsic_from_string-to_string :
    (decimal : ℕ → Text) (i : Intrinsic) (s : AttributeScope)
    → (intrinsic_from_string (intrinsic_to_string decimal i) ≡ named i)
      × (attribute_scope_from_string (scope_to_string decimal s) ≡ s)
intrinsic_from_string-to_string decimal i s = (intrinsic_back decimal i, scope_back decimal s)
