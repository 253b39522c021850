-- ===== src/StaticType/Equality.antt =====
-- Types that type_eq takes for equal are the same.
use traceql_syntax.Base.{
  true, List, [], ◌∷◌, get_elem?, some, ==_iff, ==_refl, ◌≡◌, refl, sym, ap, ◌∙◌,
}
use mathlib.Core.Option.{some-injective}
use traceql_syntax.StaticType.{
  StaticType, type_code, type_eq, type_nil, type_spanset, type_attribute, type_int, type_float,
  type_string, type_boolean, type_int_array, type_float_array, type_string_array,
  type_boolean_array, type_duration, type_status, type_kind,
}

abbrev types : List StaticType
types =
    type_nil ∷ type_spanset ∷ type_attribute ∷ type_int ∷ type_float ∷ type_string ∷ type_boolean
    ∷ type_int_array ∷ type_float_array ∷ type_string_array ∷ type_boolean_array ∷ type_duration
    ∷ type_status ∷ type_kind ∷ []

type_decoded : (t : StaticType) → get_elem? types (type_code t) ≡ some t
unfolding type_code
type_decoded type_nil = refl
type_decoded _ = refl

pub type_eq_sound : (a b : StaticType) → type_eq a b ≡ true → a ≡ b
unfolding type_eq
type_eq_sound a b h = some-injective a b (
    sym (type_decoded a)
    ∙ (ap (get_elem? types) ((==_iff (type_code a) (type_code b)).0 h) ∙ type_decoded b))

pub type_eq_self : (a : StaticType) → type_eq a a ≡ true
unfolding type_eq
type_eq_self a = ==_refl (type_code a)
