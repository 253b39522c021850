-- ===== src/Execute/Values.antt =====
-- traceql/ast_execute.go: the operators on two values that are no arrays (binOpExecuteScalar, and
-- the cases that BinaryOperation.execute shares with it). The compiled patterns are passed along.
use traceql_syntax.Base.{
  ℕ, Bool, true, false, not, ◌&&◌, ◌||◌, List, [], ◌∷◌, Option, none, some, Text, list_compare,
  ◌==◌, Result, ok, err, add64, sub64, mul64, div64, rem64, slt64, sle64, is_lt, is_gt,
  if◌then◌else◌,
}
use traceql_syntax.Runtime.{Runtime}
use traceql_syntax.StaticType.{is_matching_operand}
use traceql_syntax.Operator.{
  Operator, op_add, op_sub, op_div, op_mod, op_mult, op_equal, op_not_equal, op_regex, op_not_regex,
  op_greater, op_greater_equal, op_less, op_less_equal, op_power, op_and, op_or, binary_types_valid,
}
use traceql_syntax.Static.{
  Static, static_int, static_float, static_string, static_bool, type_of, float, equals, not_equals,
}
use traceql_syntax.Regexp.{Regexp, matched}

-- The errors of an execution.
pub data Err : Type 0 where
  bad_regex unexpected_regexps division_by_zero modulo_by_zero unsupported : Err
  two_arrays array_not_on_right not_a_boolean not_a_numeric : Err
  unexpected_operator invalid_operator : Operator → Err

-- A result with the compiled patterns that are kept for the next execution.
abbrev pub Cached : Type 0
Cached = Result Err Static × List Regexp

abbrev pub or_else {ℓ} : {A : Type ℓ} → Option A → A → A
or_else none d = d
or_else (some a) d = a

-- One pattern compiled, its memo left out: MatchString answers as `matched` does with any sound one.
abbrev pub regexp_for : Text → Bool → Regexp
regexp_for p should_match = record {
  matchers = p ∷ [];
  matches = none;
  should_match = should_match;
}

module _ (rt : Runtime) where
  -- The case of =~ and !~ on a text and a pattern.
  unfoldable pub regex_op : Bool → Text → Text → List Regexp → Cached
  unfolding matched
  regex_op should l p [] =
      if rt.fast_compiles p
      then (ok (static_bool (matched rt (regexp_for p should) l)), regexp_for p should ∷ [])
      else (err bad_regex, [])
  regex_op should l p (e ∷ []) = (ok (static_bool (matched rt e l)), e ∷ [])
  regex_op should l p (e ∷ f ∷ rest) = (err unexpected_regexps, e ∷ f ∷ rest)

  -- The switch on two strings; `none` falls through to the catch-all.
  unfoldable pub string_op : Operator → Text → Text → List Regexp → Option Cached
  unfolding list_compare regex_op
  string_op op_greater l r c = some (ok (static_bool (is_gt (list_compare l r))), c)
  string_op op_greater_equal l r c = some (ok (static_bool (not (is_lt (list_compare l r)))), c)
  string_op op_less l r c = some (ok (static_bool (is_lt (list_compare l r))), c)
  string_op op_less_equal l r c = some (ok (static_bool (not (is_gt (list_compare l r)))), c)
  string_op op_regex l r c = some (regex_op true l r c)
  string_op op_not_regex l r c = some (regex_op false l r c)
  string_op _ l r c = none

  -- int(math.Pow(float64(base), float64(exp)))
  unfoldable pub int_pow : ℕ → ℕ → ℕ
  int_pow base exp = rt.to_int (rt.f_pow (rt.of_int base) (rt.of_int exp))

  -- The switch on two ints.
  unfoldable pub int_op : Operator → ℕ → ℕ → Option (Result Err Static)
  unfolding add64 sub64 mul64 div64 rem64 int_pow
  int_op op_add l r = some (ok (static_int (add64 l r)))
  int_op op_sub l r = some (ok (static_int (sub64 l r)))
  int_op op_div l r = some (if r == 0 then err division_by_zero else ok (static_int (div64 l r)))
  int_op op_mod l r = some (if r == 0 then err modulo_by_zero else ok (static_int (rem64 l r)))
  int_op op_mult l r = some (ok (static_int (mul64 l r)))
  int_op op_greater l r = some (ok (static_bool (slt64 r l)))
  int_op op_greater_equal l r = some (ok (static_bool (sle64 r l)))
  int_op op_less l r = some (ok (static_bool (slt64 l r)))
  int_op op_less_equal l r = some (ok (static_bool (sle64 l r)))
  int_op op_power l r = some (ok (static_int (int_pow r l)))
  int_op _ l r = none

  -- The float operations, which are the catch-all.
  unfoldable pub float_op : Operator → Static → Static → Result Err Static
  unfolding float equals not_equals
  float_op op_add l r = ok (static_float (rt.f_add (float rt l) (float rt r)))
  float_op op_sub l r = ok (static_float (rt.f_sub (float rt l) (float rt r)))
  float_op op_div l r = ok (static_float (rt.f_div (float rt l) (float rt r)))
  float_op op_mod l r = ok (static_float (rt.f_mod (float rt l) (float rt r)))
  float_op op_mult l r = ok (static_float (rt.f_mul (float rt l) (float rt r)))
  float_op op_greater l r = ok (static_bool (rt.f_lt (float rt r) (float rt l)))
  float_op op_greater_equal l r = ok (static_bool (rt.f_le (float rt r) (float rt l)))
  float_op op_less l r = ok (static_bool (rt.f_lt (float rt l) (float rt r)))
  float_op op_less_equal l r = ok (static_bool (rt.f_le (float rt l) (float rt r)))
  float_op op_power l r = ok (static_float (rt.f_pow (float rt l) (float rt r)))
  float_op op_equal l r = ok (static_bool (equals rt l r))
  float_op op_not_equal l r = ok (static_bool (not_equals rt l r))
  float_op op l r = err (unexpected_operator op)

-- The switch on two bools.
unfoldable pub bool_op : Operator → Bool → Bool → Option (Result Err Static)
bool_op op_and l r = some (ok (static_bool (l && r)))
bool_op op_or l r = some (ok (static_bool (l || r)))
bool_op _ l r = none

module _ (rt : Runtime) where
  -- The switch of binOpExecuteScalar.
  unfoldable pub scalar_case : Operator → Static → Static → List Regexp → Cached
  unfolding string_op int_op bool_op float_op
  scalar_case op (static_string l) (static_string r) c =
      or_else (string_op rt op l r c) (float_op rt op (static_string l) (static_string r), c)
  scalar_case op (static_int l) (static_int r) c =
      (or_else (int_op rt op l r) (float_op rt op (static_int l) (static_int r)), c)
  scalar_case op (static_bool l) (static_bool r) c =
      (or_else (bool_op op l r) (float_op rt op (static_bool l) (static_bool r)), c)
  scalar_case op l r c = (float_op rt op l r, c)

  unfoldable pub bin_op_execute_scalar : Operator → Static → Static → List Regexp → Cached
  unfolding scalar_case is_matching_operand binary_types_valid type_of
  bin_op_execute_scalar op l r c =
      if is_matching_operand (type_of l) (type_of r)
        && binary_types_valid op (type_of l) (type_of r)
      then scalar_case op l r c
      else (ok (static_bool false), c)
