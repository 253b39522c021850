-- ===== src/Static.antt =====
-- traceql/ast.go, type Static: the values of the language. The source keeps a type tag, a 64-bit
-- scalar and byte or string slices; here each tag is a constructor with its payload. Ints,
-- durations, statuses and kinds are 64-bit patterns, and floats are the bits of a float64.
pub mod Append
use traceql_syntax.Base.{
  ℕ, Bool, true, false, ◌&&◌, not, List, [], ◌∷◌, map, Text, list_eq, list_compare, ◌==◌, compare,
  Ordering, biased, add64, div64, if◌then◌else◌,
}
use traceql_syntax.StaticType.{
  StaticType, type_nil, type_int, type_float, type_string, type_boolean, type_int_array,
  type_float_array, type_string_array, type_boolean_array, type_duration, type_status, type_kind,
  is_numeric, type_eq, type_code,
}
use traceql_syntax.Runtime.{Runtime}

pub data Static : Type 0 where
  static_nil : Static
  static_int static_float static_duration static_status static_kind : ℕ → Static
  static_string : Text → Static
  static_bool : Bool → Static
  static_int_array static_float_array : List ℕ → Static
  static_string_array : List Text → Static
  static_boolean_array : List Bool → Static

unfoldable pub type_of : Static → StaticType
type_of static_nil = type_nil
type_of (static_int n) = type_int
type_of (static_float f) = type_float
type_of (static_duration d) = type_duration
type_of (static_status s) = type_status
type_of (static_kind k) = type_kind
type_of (static_string s) = type_string
type_of (static_bool b) = type_boolean
type_of (static_int_array xs) = type_int_array
type_of (static_float_array xs) = type_float_array
type_of (static_string_array xs) = type_string_array
type_of (static_boolean_array xs) = type_boolean_array

unfoldable pub bool_eq : Bool → Bool → Bool
bool_eq true b = b
bool_eq false b = not b

unfoldable pub bools_eq : List Bool → List Bool → Bool
unfolding bool_eq
bools_eq [] [] = true
bools_eq [] (y ∷ ys) = false
bools_eq (x ∷ xs) [] = false
bools_eq (x ∷ xs) (y ∷ ys) = bool_eq x y && bools_eq xs ys

unfoldable pub texts_eq : List Text → List Text → Bool
unfolding list_eq
texts_eq [] [] = true
texts_eq [] (y ∷ ys) = false
texts_eq (x ∷ xs) [] = false
texts_eq (x ∷ xs) (y ∷ ys) = list_eq x y && texts_eq xs ys

-- The elements of an array, and any other value as its only element.
unfoldable pub elements : Static → List Static
elements (static_int_array xs) = map static_int xs
elements (static_float_array xs) = map static_float xs
elements (static_string_array xs) = map static_string xs
elements (static_boolean_array xs) = map static_bool xs
elements s = s ∷ []

module _ (rt : Runtime) where
  unfoldable pub float : Static → ℕ
  float (static_float f) = f
  float (static_int n) = rt.of_int n
  float (static_duration d) = rt.of_int d
  float s = rt.nan

  unfoldable pub equals : Static → Static → Bool
  unfolding float list_eq bools_eq texts_eq bool_eq
  equals static_nil o = false
  equals s static_nil = false
  equals (static_int n) (static_int m) = n == m
  equals (static_int n) (static_duration m) = n == m
  equals (static_int n) (static_status m) = n == m
  equals (static_int n) (static_float g) = rt.f_eq (rt.of_int n) g
  equals (static_duration n) (static_int m) = n == m
  equals (static_duration n) (static_duration m) = n == m
  equals (static_duration n) (static_float g) = rt.f_eq (rt.of_int n) g
  equals (static_status n) (static_int m) = n == m
  equals (static_status n) (static_status m) = n == m
  equals (static_float f) o = rt.f_eq f (float o)
  equals (static_kind n) (static_kind m) = n == m
  equals (static_bool a) (static_bool b) = bool_eq a b
  equals (static_string a) (static_string b) = list_eq a b
  equals (static_int_array a) (static_int_array b) = list_eq a b
  equals (static_float_array a) (static_float_array b) = list_eq a b
  equals (static_boolean_array a) (static_boolean_array b) = bools_eq a b
  equals (static_string_array a) (static_string_array b) = texts_eq a b
  equals s o = false

  unfoldable pub not_equals : Static → Static → Bool
  unfolding equals
  not_equals static_nil o = false
  not_equals s static_nil = false
  not_equals s o = not (equals s o)

  unfoldable pub strict_equals : Static → Static → Bool
  unfolding list_eq bools_eq texts_eq bool_eq
  strict_equals static_nil static_nil = true
  strict_equals (static_float f) (static_float g) = rt.f_eq f g
  strict_equals (static_string a) (static_string b) = list_eq a b
  strict_equals (static_int_array a) (static_int_array b) = list_eq a b
  strict_equals (static_float_array a) (static_float_array b) = list_eq a b
  strict_equals (static_boolean_array a) (static_boolean_array b) = bools_eq a b
  strict_equals (static_string_array a) (static_string_array b) = texts_eq a b
  strict_equals (static_int n) (static_int m) = n == m
  strict_equals (static_duration n) (static_duration m) = n == m
  strict_equals (static_status n) (static_status m) = n == m
  strict_equals (static_kind n) (static_kind m) = n == m
  strict_equals (static_bool a) (static_bool b) = bool_eq a b
  strict_equals s o = false

  -- Go's cmp.Compare on floats: a NaN is less than every other float, and equal to a NaN.
  unfoldable pub cmp_float : ℕ → ℕ → Ordering
  cmp_float a b =
      if rt.f_lt a b
      then Ordering.lt
      else if rt.f_lt b a
      then Ordering.gt
      else if rt.f_eq a a
      then (if rt.f_eq b b then Ordering.eq else Ordering.gt)
      else if rt.f_eq b b
      then Ordering.lt
      else Ordering.eq

  -- slices.Compare on floats.
  cmp_floats : List ℕ → List ℕ → Ordering
  unfolding cmp_float
  cmp_floats [] [] = Ordering.eq
  cmp_floats [] (y ∷ ys) = Ordering.lt
  cmp_floats (x ∷ xs) [] = Ordering.gt
  cmp_floats (x ∷ xs) (y ∷ ys) = elim (cmp_float x y) [
    | Ordering.lt ↦ Ordering.lt
    | Ordering.gt ↦ Ordering.gt
    | Ordering.eq ↦ cmp_floats xs ys
  ]

  -- s.sumInto(o): the new value of s.
  unfoldable pub sum_into : Static → Static → Static
  unfolding add64
  sum_into (static_int n) (static_int m) = static_int (add64 n m)
  sum_into (static_duration n) (static_duration m) = static_duration (add64 n m)
  sum_into (static_float f) (static_float g) = static_float (rt.f_add f g)
  sum_into s o = s

  unfoldable pub divide_by : Static → ℕ → Static
  unfolding div64
  divide_by (static_int n) f = static_float (rt.f_div (rt.of_uint n) f)
  divide_by (static_duration d) f = static_duration (div64 d (rt.to_int f))
  divide_by (static_float g) f = static_float (rt.f_div g f)
  divide_by s f = s

-- slices.Compare on strings.
texts_compare : List Text → List Text → Ordering
unfolding list_compare
texts_compare [] [] = Ordering.eq
texts_compare [] (y ∷ ys) = Ordering.lt
texts_compare (x ∷ xs) [] = Ordering.gt
texts_compare (x ∷ xs) (y ∷ ys) = elim (list_compare x y) [
  | Ordering.lt ↦ Ordering.lt
  | Ordering.gt ↦ Ordering.gt
  | Ordering.eq ↦ texts_compare xs ys
]

-- The byte of a bool.
abbrev bit : Bool → ℕ
bit true = 1
bit false = 0

-- The comparison of two values of one type; any other two are ordered by their types.
compare_same : Runtime → Static → Static → Ordering
unfolding list_compare texts_compare cmp_floats type_of type_code
compare_same rt (static_string a) (static_string b) = list_compare a b
compare_same rt (static_boolean_array a) (static_boolean_array b) =
    list_compare (map bit a) (map bit b)
compare_same rt (static_int_array a) (static_int_array b) =
    list_compare (map biased a) (map biased b)
compare_same rt (static_float_array a) (static_float_array b) = cmp_floats rt a b
compare_same rt (static_string_array a) (static_string_array b) = texts_compare a b
compare_same rt static_nil static_nil = Ordering.eq
compare_same rt (static_int n) (static_int m) = compare (biased n) (biased m)
compare_same rt (static_float f) (static_float g) = compare (biased f) (biased g)
compare_same rt (static_duration n) (static_duration m) = compare (biased n) (biased m)
compare_same rt (static_status n) (static_status m) = compare (biased n) (biased m)
compare_same rt (static_kind n) (static_kind m) = compare (biased n) (biased m)
compare_same rt (static_bool a) (static_bool b) = compare (bit a) (bit b)
compare_same rt s o = compare (type_code (type_of s)) (type_code (type_of o))

unfoldable pub compare_static : Runtime → Static → Static → Ordering
unfolding compare_same type_of type_eq is_numeric float cmp_float
compare_static rt s o =
    if not (type_eq (type_of s) (type_of o)) && (is_numeric (type_of s) && is_numeric (type_of o))
    then cmp_float rt (float rt s) (float rt o)
    else compare_same rt s o
