-- ===== src/StaticType.antt =====
-- traceql/enum_statics.go: the types of values and which types go together.
pub mod Laws
pub mod Equality
use traceql_syntax.Base.{Bool, true, false, ◌&&◌, ◌||◌, ℕ, zero, suc, ◌==◌, Option, none, some}

pub data StaticType : Type 0 where
  type_nil type_spanset type_attribute type_int type_float type_string : StaticType
  type_boolean type_int_array type_float_array type_string_array : StaticType
  type_boolean_array type_duration type_status type_kind : StaticType

-- The value of the constant, which orders the types.
unfoldable pub type_code : StaticType → ℕ
type_code type_nil = 0
type_code type_spanset = 1
type_code type_attribute = 2
type_code type_int = 3
type_code type_float = 4
type_code type_string = 5
type_code type_boolean = 6
type_code type_int_array = 7
type_code type_float_array = 8
type_code type_string_array = 9
type_code type_boolean_array = 10
type_code type_duration = 11
type_code type_status = 12
type_code type_kind = 13

unfoldable pub type_eq : StaticType → StaticType → Bool
unfolding type_code
type_eq a b = type_code a == type_code b

unfoldable pub is_numeric : StaticType → Bool
is_numeric type_int = true
is_numeric type_float = true
is_numeric type_duration = true
is_numeric _ = false

unfoldable pub is_array : StaticType → Bool
is_array type_int_array = true
is_array type_float_array = true
is_array type_string_array = true
is_array type_boolean_array = true
is_array _ = false

-- The tests of isMatchingOperand before it looks at the elements of arrays.
unfoldable pub matches_directly : StaticType → StaticType → Bool
unfolding is_numeric type_eq
matches_directly type_attribute o = true
matches_directly t type_attribute = true
matches_directly t o =
    type_eq t o || (is_numeric t && is_numeric o) || (type_eq t type_nil || type_eq o type_nil)

-- The element type that the two switches of isMatchingArrayElement name.
unfoldable pub element_type : StaticType → Option StaticType
element_type type_int_array = some type_int
element_type type_float_array = some type_float
element_type type_string_array = some type_string
element_type type_boolean_array = some type_boolean
element_type _ = none

-- isMatchingArrayElement over the call of isMatchingOperand that it makes.
abbrev pub match_element : (StaticType → StaticType → Bool) → StaticType → StaticType → Bool
match_element self t o = elim (element_type t) [
  | some e ↦ self e o
  | none ↦ elim (element_type o) [ some e ↦ self e t | none ↦ false ]
]

-- The two functions of the source call one another; the number bounds how deep.
matching : ℕ → StaticType → StaticType → Bool
unfolding matches_directly element_type
matching zero t o = matches_directly t o
matching (suc n) t o = matches_directly t o || match_element (matching n) t o

-- Each call takes one array type off the operands, so two calls deep is enough.
unfoldable pub is_matching_operand : StaticType → StaticType → Bool
unfolding matching
is_matching_operand t o = matching 2 t o

unfoldable pub is_matching_array_element : StaticType → StaticType → Bool
unfolding matching
is_matching_array_element t o = match_element (matching 1) t o
