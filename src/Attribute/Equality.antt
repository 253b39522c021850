-- ===== src/Attribute/Equality.antt =====
-- Equal attributes in Go's sense are the same attribute.
use traceql_syntax.Base.{
  Bool, true, ◌&&◌, List, [], ◌∷◌, get_elem?, some, ==_iff, list_eq_sound, ◌≡◌, refl, ap, ◌∙◌, sym,
  arith,
}
use mathlib.Core.Option.{some-injective}
use traceql_syntax.Static.{bool_eq}
use traceql_syntax.Attribute.{
  AttributeScope, Intrinsic, Attribute, scope_code, intrinsic_code, intrinsic_eq, attribute_eq,
  intrinsic_none, intrinsic_duration, intrinsic_name, intrinsic_status, intrinsic_status_message,
  intrinsic_kind, intrinsic_child_count, intrinsic_trace_root_service, intrinsic_trace_root_span,
  intrinsic_trace_duration, intrinsic_nested_set_left, intrinsic_nested_set_right,
  intrinsic_nested_set_parent, intrinsic_event_name, intrinsic_event_time_since_start,
  intrinsic_link_span_id, intrinsic_link_trace_id, intrinsic_instrumentation_name,
  intrinsic_instrumentation_version, intrinsic_parent, intrinsic_structural_descendant,
  intrinsic_structural_sibling, intrinsic_structural_child, intrinsic_trace_id, intrinsic_span_id,
  intrinsic_parent_id, scoped_intrinsic_span_status, scoped_intrinsic_span_status_message,
  scoped_intrinsic_span_duration, scoped_intrinsic_span_name, scoped_intrinsic_span_kind,
  scoped_intrinsic_trace_root_name, scoped_intrinsic_trace_root_service,
  scoped_intrinsic_trace_duration, intrinsic_trace_start_time, intrinsic_span_start_time,
  intrinsic_service_stats, scope_none, scope_trace, scope_resource, scope_span, scope_event,
  scope_link, scope_instrumentation, scope_unknown,
}

abbrev scopes : List AttributeScope
scopes =
    scope_none ∷ scope_trace ∷ scope_resource ∷ scope_span ∷ scope_event ∷ scope_link
    ∷ scope_instrumentation ∷ scope_unknown ∷ []

abbrev intrinsics : List Intrinsic
intrinsics =
    intrinsic_none ∷ intrinsic_duration ∷ intrinsic_name ∷ intrinsic_status
    ∷ intrinsic_status_message ∷ intrinsic_kind ∷ intrinsic_child_count
    ∷ intrinsic_trace_root_service ∷ intrinsic_trace_root_span ∷ intrinsic_trace_duration
    ∷ intrinsic_nested_set_left ∷ intrinsic_nested_set_right ∷ intrinsic_nested_set_parent
    ∷ intrinsic_event_name ∷ intrinsic_event_time_since_start ∷ intrinsic_link_span_id
    ∷ intrinsic_link_trace_id ∷ intrinsic_instrumentation_name ∷ intrinsic_instrumentation_version
    ∷ intrinsic_parent ∷ intrinsic_structural_descendant ∷ intrinsic_structural_sibling
    ∷ intrinsic_structural_child ∷ intrinsic_trace_id ∷ intrinsic_span_id ∷ intrinsic_parent_id
    ∷ scoped_intrinsic_span_status ∷ scoped_intrinsic_span_status_message
    ∷ scoped_intrinsic_span_duration ∷ scoped_intrinsic_span_name ∷ scoped_intrinsic_span_kind
    ∷ scoped_intrinsic_trace_root_name ∷ scoped_intrinsic_trace_root_service
    ∷ scoped_intrinsic_trace_duration ∷ intrinsic_trace_start_time ∷ intrinsic_span_start_time
    ∷ intrinsic_service_stats ∷ []

scope_decoded : (s : AttributeScope) → get_elem? scopes (scope_code s) ≡ some s
unfolding scope_code
scope_decoded scope_none = refl
scope_decoded _ = refl

intrinsic_decoded : (i : Intrinsic) → get_elem? intrinsics (intrinsic_code i) ≡ some i
unfolding intrinsic_code
intrinsic_decoded intrinsic_none = refl
intrinsic_decoded _ = refl

scope_code_injective : (a b : AttributeScope) → scope_code a ≡ scope_code b → a ≡ b
scope_code_injective a b h =
    some-injective a b (sym (scope_decoded a) ∙ (ap (get_elem? scopes) h ∙ scope_decoded b))

intrinsic_code_injective : (a b : Intrinsic) → intrinsic_code a ≡ intrinsic_code b → a ≡ b
intrinsic_code_injective a b h =
    some-injective a b
      (sym (intrinsic_decoded a) ∙ (ap (get_elem? intrinsics) h ∙ intrinsic_decoded b))

bool_eq_sound : (a b : Bool) → bool_eq a b ≡ true → a ≡ b
unfolding bool_eq
bool_eq_sound a b h = ground arith

and_true : (a b : Bool) → (a && b) ≡ true → (a ≡ true) × (b ≡ true)
and_true a b h = ground arith

-- If Go's == holds of two attributes, then they are the same.
pub attribute_eq_sound : (a b : Attribute) → attribute_eq a b ≡ true → a ≡ b
unfolding attribute_eq intrinsic_eq
attribute_eq_sound a b h =
    let (ns, pi) = and_true _ _ h in
    let (n, s) = and_true _ _ ns in
    let (p, i) = and_true _ _ pi in
    same (list_eq_sound a.name b.name n) (scope_code_injective a.scope b.scope ((==_iff _ _).0 s))
      (bool_eq_sound a.parent b.parent p)
      (intrinsic_code_injective a.intrinsic b.intrinsic ((==_iff _ _).0 i))
  where
    same :
        a.name ≡ b.name
        → a.scope ≡ b.scope
        → a.parent ≡ b.parent
        → a.intrinsic ≡ b.intrinsic
        → a ≡ b
    same e f g h' i = record { name = e i; scope = f i; parent = g i; intrinsic = h' i }
