-- ===== src/Operator.antt =====
-- traceql/enum_operators.go: the operators, their classes, and which operand types each accepts.
pub mod Equality
pub mod Texts
use traceql_syntax.Base.{Bool, true, false, ◌&&◌, Text, codes, ℕ, ◌==◌, ◌++◌}
use traceql_syntax.StaticType.{
  StaticType, type_nil, type_attribute, type_int, type_float, type_string, type_boolean,
  type_int_array, type_float_array, type_string_array, type_boolean_array, type_duration,
  type_status, type_kind, is_numeric,
}

pub data Operator : Type 0 where
  op_none op_add op_sub op_div op_mod op_mult op_equal op_not_equal op_regex : Operator
  op_not_regex op_greater op_greater_equal op_less op_less_equal op_power : Operator
  op_and op_or op_not op_spanset_child op_spanset_parent op_spanset_descendant : Operator
  op_spanset_ancestor op_spanset_and op_spanset_union op_spanset_sibling : Operator
  op_spanset_not_child op_spanset_not_parent op_spanset_not_sibling : Operator
  op_spanset_not_ancestor op_spanset_not_descendant op_spanset_union_child : Operator
  op_spanset_union_parent op_spanset_union_sibling op_spanset_union_ancestor : Operator
  op_spanset_union_descendant op_exists op_not_exists op_in op_not_in : Operator
  op_regex_match_any op_regex_match_none : Operator

-- The value of the constant.
unfoldable pub code : Operator → ℕ
code op_none = 0
code op_add = 1
code op_sub = 2
code op_div = 3
code op_mod = 4
code op_mult = 5
code op_equal = 6
code op_not_equal = 7
code op_regex = 8
code op_not_regex = 9
code op_greater = 10
code op_greater_equal = 11
code op_less = 12
code op_less_equal = 13
code op_power = 14
code op_and = 15
code op_or = 16
code op_not = 17
code op_spanset_child = 18
code op_spanset_parent = 19
code op_spanset_descendant = 20
code op_spanset_ancestor = 21
code op_spanset_and = 22
code op_spanset_union = 23
code op_spanset_sibling = 24
code op_spanset_not_child = 25
code op_spanset_not_parent = 26
code op_spanset_not_sibling = 27
code op_spanset_not_ancestor = 28
code op_spanset_not_descendant = 29
code op_spanset_union_child = 30
code op_spanset_union_parent = 31
code op_spanset_union_sibling = 32
code op_spanset_union_ancestor = 33
code op_spanset_union_descendant = 34
code op_exists = 35
code op_not_exists = 36
code op_in = 37
code op_not_in = 38
code op_regex_match_any = 39
code op_regex_match_none = 40

unfoldable pub op_eq : Operator → Operator → Bool
unfolding code
op_eq a b = code a == code b

unfoldable pub is_arithmetic : Operator → Bool
is_arithmetic op_add = true
is_arithmetic op_sub = true
is_arithmetic op_mult = true
is_arithmetic op_div = true
is_arithmetic _ = false

unfoldable pub is_boolean : Operator → Bool
is_boolean op_or = true
is_boolean op_and = true
is_boolean op_equal = true
is_boolean op_not_equal = true
is_boolean op_regex = true
is_boolean op_not_regex = true
is_boolean op_greater = true
is_boolean op_greater_equal = true
is_boolean op_less = true
is_boolean op_less_equal = true
is_boolean op_not = true
is_boolean op_exists = true
is_boolean op_not_exists = true
is_boolean op_in = true
is_boolean op_not_in = true
is_boolean op_regex_match_any = true
is_boolean op_regex_match_none = true
is_boolean _ = false

-- The operators of each case of the switch of binaryTypeValid.
unfoldable pub valid_on_boolean : Operator → Bool
valid_on_boolean op_and = true
valid_on_boolean op_or = true
valid_on_boolean op_equal = true
valid_on_boolean op_not_equal = true
valid_on_boolean op_in = true
valid_on_boolean op_not_in = true
valid_on_boolean _ = false

unfoldable pub valid_on_number : Operator → Bool
valid_on_number op_add = true
valid_on_number op_sub = true
valid_on_number op_mult = true
valid_on_number op_div = true
valid_on_number op_mod = true
valid_on_number op_power = true
valid_on_number op_equal = true
valid_on_number op_not_equal = true
valid_on_number op_greater = true
valid_on_number op_greater_equal = true
valid_on_number op_less = true
valid_on_number op_less_equal = true
valid_on_number op_in = true
valid_on_number op_not_in = true
valid_on_number _ = false

unfoldable pub valid_on_string : Operator → Bool
valid_on_string op_equal = true
valid_on_string op_not_equal = true
valid_on_string op_regex = true
valid_on_string op_not_regex = true
valid_on_string op_greater = true
valid_on_string op_greater_equal = true
valid_on_string op_less = true
valid_on_string op_less_equal = true
valid_on_string op_in = true
valid_on_string op_not_in = true
valid_on_string op_regex_match_any = true
valid_on_string op_regex_match_none = true
valid_on_string _ = false

unfoldable pub valid_on_keyword : Operator → Bool
valid_on_keyword op_equal = true
valid_on_keyword op_not_equal = true
valid_on_keyword _ = false

unfoldable pub binary_type_valid : Operator → StaticType → Bool
unfolding valid_on_boolean valid_on_number valid_on_string valid_on_keyword
binary_type_valid op type_attribute = true
binary_type_valid op type_boolean = valid_on_boolean op
binary_type_valid op type_boolean_array = valid_on_boolean op
binary_type_valid op type_float = valid_on_number op
binary_type_valid op type_float_array = valid_on_number op
binary_type_valid op type_int = valid_on_number op
binary_type_valid op type_int_array = valid_on_number op
binary_type_valid op type_duration = valid_on_number op
binary_type_valid op type_string = valid_on_string op
binary_type_valid op type_string_array = valid_on_string op
binary_type_valid op type_nil = valid_on_keyword op
binary_type_valid op type_status = valid_on_keyword op
binary_type_valid op type_kind = valid_on_keyword op
binary_type_valid op _ = false

unfoldable pub binary_types_valid : Operator → StaticType → StaticType → Bool
unfolding binary_type_valid
binary_types_valid op lhs_t rhs_t = binary_type_valid op lhs_t && binary_type_valid op rhs_t

is_type_boolean : StaticType → Bool
is_type_boolean type_boolean = true
is_type_boolean _ = false

-- The switch of unaryTypesValid, after its test for the attribute type.
unary_type_valid : Operator → StaticType → Bool
unfolding is_type_boolean is_numeric
unary_type_valid op_sub t = is_numeric t
unary_type_valid op_not t = is_type_boolean t
unary_type_valid op_exists t = true
unary_type_valid op_not_exists t = true
unary_type_valid _ t = false

unfoldable pub unary_types_valid : Operator → StaticType → Bool
unfolding unary_type_valid
unary_types_valid op type_attribute = true
unary_types_valid op t = unary_type_valid op t

unfoldable pub is_array_op : Operator → Bool
is_array_op op_in = true
is_array_op op_not_in = true
is_array_op op_regex_match_any = true
is_array_op op_regex_match_none = true
is_array_op _ = false

unfoldable pub to_element_op : Operator → Operator
to_element_op op_in = op_equal
to_element_op op_not_in = op_not_equal
to_element_op op_regex_match_any = op_regex
to_element_op op_regex_match_none = op_not_regex
to_element_op op = op

-- traceql/ast_execute.go: the operator for exchanged operands.
unfoldable pub get_flipped_op : Operator → Operator
get_flipped_op op_greater = op_less
get_flipped_op op_greater_equal = op_less_equal
get_flipped_op op_less = op_greater
get_flipped_op op_less_equal = op_greater_equal
get_flipped_op op = op
