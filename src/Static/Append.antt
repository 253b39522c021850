-- ===== src/Static/Append.antt =====
-- traceql/ast.go, Static.append: a value and another joined into an array, where their types allow.
use traceql_syntax.Base.{◌++◌, ◌∷◌, [], Option, none, some}
use traceql_syntax.Static.{
  Static, static_int, static_float, static_string, static_bool, static_int_array,
  static_float_array, static_string_array, static_boolean_array,
}

unfoldable pub append : Static → Static → Option Static
append (static_string s) (static_string t) = some (static_string_array (s ∷ t ∷ []))
append (static_string s) (static_string_array ts) = some (static_string_array (s ∷ ts))
append (static_string_array ss) (static_string t) = some (static_string_array (ss ++ t ∷ []))
append (static_string_array ss) (static_string_array ts) = some (static_string_array (ss ++ ts))
append (static_int n) (static_int m) = some (static_int_array (n ∷ m ∷ []))
append (static_int n) (static_int_array ms) = some (static_int_array (n ∷ ms))
append (static_int_array ns) (static_int m) = some (static_int_array (ns ++ m ∷ []))
append (static_int_array ns) (static_int_array ms) = some (static_int_array (ns ++ ms))
append (static_float f) (static_float g) = some (static_float_array (f ∷ g ∷ []))
append (static_float f) (static_float_array gs) = some (static_float_array (f ∷ gs))
append (static_float_array fs) (static_float g) = some (static_float_array (fs ++ g ∷ []))
append (static_float_array fs) (static_float_array gs) = some (static_float_array (fs ++ gs))
append (static_bool a) (static_bool b) = some (static_boolean_array (a ∷ b ∷ []))
append (static_bool a) (static_boolean_array bs) = some (static_boolean_array (a ∷ bs))
append (static_boolean_array as') (static_bool b) = some (static_boolean_array (as' ++ b ∷ []))
append (static_boolean_array as') (static_boolean_array bs) =
    some (static_boolean_array (as' ++ bs))
append _ _ = none
