-- ===== src/Rewrite/Operands.antt =====
-- The statics that a comparison may stand beside so that the rewriter keeps its meaning, and what
-- such a comparison says.
use traceql_syntax.Base.{[], ◌∷◌, All, ok, Text, ◌≡◌, refl}
use traceql_syntax.Runtime.{Runtime}
use traceql_syntax.Operator.{
  Operator, op_equal, op_not_equal, op_regex, op_not_regex, op_in, op_not_in, op_regex_match_any,
  op_regex_match_none,
}
use traceql_syntax.Static.{
  Static, static_nil, static_string, static_bool, static_int_array, static_float_array,
  static_string_array, static_boolean_array,
}
use traceql_syntax.Execute.Arrays.{execute_values}
use traceql_syntax.Execute.Elements.{test}
use traceql_syntax.Rewrite.Comparisons.{IsScalar, Compiles}

-- An array with at least one element.
abbrev pub IsFilled : Static → Type 0
IsFilled (static_int_array (n ∷ ns)) = Unit
IsFilled (static_float_array (n ∷ ns)) = Unit
IsFilled (static_string_array (n ∷ ns)) = Unit
IsFilled (static_boolean_array (n ∷ ns)) = Unit
IsFilled _ = ⊥

-- A pattern, and a list of patterns, that compile.
abbrev pub IsPattern : Runtime → Static → Type 0
IsPattern rt (static_string p) = Compiles rt p
IsPattern rt _ = ⊥

abbrev pub ArePatterns : Runtime → Static → Type 0
ArePatterns rt (static_string_array (p ∷ ps)) = All (Compiles rt) (p ∷ ps)
ArePatterns rt _ = ⊥

-- The scalar operators stand beside a scalar, the array operators beside an array.
abbrev pub Operand : Runtime → Operator → Static → Type 0
Operand rt op_equal s = IsScalar s
Operand rt op_not_equal s = IsScalar s
Operand rt op_in s = IsFilled s
Operand rt op_not_in s = IsFilled s
Operand rt op_regex s = IsPattern rt s
Operand rt op_not_regex s = IsPattern rt s
Operand rt op_regex_match_any s = ArePatterns rt s
Operand rt op_regex_match_none s = ArePatterns rt s
Operand rt _ s = Unit

module _ (rt : Runtime) where
  pub equal_value :
      (x s : Static)
      → IsScalar x
      → IsScalar s
      → (execute_values rt op_equal x s []).0 ≡ ok (static_bool (test rt op_equal x s))
  unfolding execute_values test
  equal_value (static_int_array x) s h k = cc
  equal_value (static_float_array x) s h k = cc
  equal_value (static_string_array x) s h k = cc
  equal_value (static_boolean_array x) s h k = cc
  equal_value _ (static_int_array x) h k = cc
  equal_value _ (static_float_array x) h k = cc
  equal_value _ (static_string_array x) h k = cc
  equal_value _ (static_boolean_array x) h k = cc
  equal_value static_nil static_nil h k = refl
  equal_value _ static_nil h k = refl
  equal_value _ _ h k = refl

  pub not_equal_value :
      (x s : Static)
      → IsScalar x
      → IsScalar s
      → (execute_values rt op_not_equal x s []).0 ≡ ok (static_bool (test rt op_not_equal x s))
  unfolding execute_values test
  not_equal_value (static_int_array x) s h k = cc
  not_equal_value (static_float_array x) s h k = cc
  not_equal_value (static_string_array x) s h k = cc
  not_equal_value (static_boolean_array x) s h k = cc
  not_equal_value _ (static_int_array x) h k = cc
  not_equal_value _ (static_float_array x) h k = cc
  not_equal_value _ (static_string_array x) h k = cc
  not_equal_value _ (static_boolean_array x) h k = cc
  not_equal_value static_nil static_nil h k = refl
  not_equal_value _ static_nil h k = refl
  not_equal_value _ _ h k = refl

  pub regex_value :
      (x : Static) (p : Text)
      → IsScalar x
      → Compiles rt p
      → (execute_values rt op_regex x (static_string p) []).0
        ≡ ok (static_bool (test rt op_regex x (static_string p)))
  unfolding execute_values test
  regex_value (static_int_array x) p h c = cc
  regex_value (static_float_array x) p h c = cc
  regex_value (static_string_array x) p h c = cc
  regex_value (static_boolean_array x) p h c = cc
  regex_value (static_string x) p h c = rw c refl
  regex_value _ p h c = refl

  pub not_regex_value :
      (x : Static) (p : Text)
      → IsScalar x
      → Compiles rt p
      → (execute_values rt op_not_regex x (static_string p) []).0
        ≡ ok (static_bool (test rt op_not_regex x (static_string p)))
  unfolding execute_values test
  not_regex_value (static_int_array x) p h c = cc
  not_regex_value (static_float_array x) p h c = cc
  not_regex_value (static_string_array x) p h c = cc
  not_regex_value (static_boolean_array x) p h c = cc
  not_regex_value (static_string x) p h c = rw c refl
  not_regex_value _ p h c = refl
