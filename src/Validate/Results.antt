-- ===== src/Validate/Results.antt =====
-- What an operator makes of two values, by its kind.
use traceql_syntax.Base.{
  Bool, true, false, not, ◌&&◌, ◌||◌, List, Result, ok, err, if◌then◌else◌, ◌≡◌, refl, arith,
  Bool-cases, inl, inr, ℕ, Text, [], ◌∷◌,
}
use traceql_syntax.Runtime.{Runtime}
use traceql_syntax.StaticType.{
  StaticType, is_numeric, type_int_array, type_float_array, is_matching_operand,
  is_matching_array_element,
}
use traceql_syntax.Operator.{Operator, is_boolean, binary_type_valid, binary_types_valid}
use traceql_syntax.Static.{Static, elements, static_int, static_string, static_bool, type_of}
use traceql_syntax.Regexp.{Regexp}
use traceql_syntax.Execute.Values.{Err, or_else, regex_op, string_op, int_op, float_op, bool_op}
use traceql_syntax.Execute.Arrays.{
  Counts, counted, is_negated, array_loop, array_op, on_elements, value_case, execute_values,
}

-- A bool, if there is no error.
abbrev pub IsBoolean : Result Err Static → Type 0
IsBoolean (ok (static_bool b)) = Unit
IsBoolean (ok v) = ⊥
IsBoolean (err x) = Unit

-- What a comparison of types that do not go together gives.
abbrev pub is_mismatch : Static → Bool
is_mismatch (static_bool b) = not b
is_mismatch _ = false

abbrev pub is_number : Static → Bool
is_number v = is_numeric (type_of v)

-- A number, which comes of two numbers, or the bool of a mismatch, if there is no error.
abbrev pub IsNumber : Static → Static → Result Err Static → Type 0
IsNumber l r (err x) = Unit
IsNumber l r (ok v) = (is_mismatch v || (is_number v && (is_number l && is_number r))) ≡ true

-- Numbers and arrays of numbers.
is_arithmetic : StaticType → Bool
is_arithmetic type_int_array = true
is_arithmetic type_float_array = true
is_arithmetic t = is_numeric t

-- Where no array is matched, arithmetic types are types of numbers.
no_arrays :
    (t o : StaticType)
    → is_arithmetic t ≡ true
    → is_arithmetic o ≡ true
    → is_matching_array_element t o ≡ false
    → (is_numeric t ≡ true) × (is_numeric o ≡ true)
unfolding is_arithmetic is_numeric is_matching_array_element
no_arrays t o h k e = ground arith

type_of-is_arithmetic :
    (op : Operator) (v : Static)
    → is_boolean op ≡ false
    → binary_type_valid op (type_of v) ≡ true
    → is_arithmetic (type_of v) ≡ true
unfolding is_arithmetic is_numeric is_boolean binary_type_valid type_of
type_of-is_arithmetic op v h k = ground arith

module _ (rt : Runtime) where
  float_op-IsBoolean :
      (op : Operator) (l r : Static) → is_boolean op ≡ true → IsBoolean (float_op rt op l r)
  unfolding float_op is_boolean
  float_op-IsBoolean op l r h = ground arith

  regex_op-IsBoolean :
      (should : Bool) (l p : Text) (c : List Regexp) → IsBoolean (regex_op rt should l p c).0
  unfolding regex_op
  regex_op-IsBoolean should l p [] = ground arith
  regex_op-IsBoolean should l p (e ∷ []) = tt
  regex_op-IsBoolean should l p (e ∷ f ∷ rest) = tt

  string_op-IsBoolean :
      (op : Operator) (l r : Text) (c : List Regexp)
      → is_boolean op ≡ true
      → IsBoolean
          (or_else
            (string_op rt op l r c)
            (float_op rt op (static_string l) (static_string r), c)).0
  unfolding string_op float_op is_boolean
  string_op-IsBoolean op l r c h =
      ground (arith, regex_op-IsBoolean true l r c, regex_op-IsBoolean false l r c)

  int_op-IsBoolean :
      (op : Operator) (l r : ℕ)
      → is_boolean op ≡ true
      → IsBoolean (or_else (int_op rt op l r) (float_op rt op (static_int l) (static_int r)))
  unfolding int_op float_op is_boolean
  int_op-IsBoolean op l r h = ground arith

  bool_op-IsBoolean :
      (op : Operator) (l r : Bool)
      → is_boolean op ≡ true
      → IsBoolean (or_else (bool_op op l r) (float_op rt op (static_bool l) (static_bool r)))
  unfolding bool_op float_op is_boolean
  bool_op-IsBoolean op l r h = ground arith

  on_elements-IsBoolean :
      (op : Operator) (flip : Bool) (scalar array : Static) (c : List Regexp)
      → IsBoolean (on_elements rt op flip scalar array c).0
  unfolding on_elements counted
  on_elements-IsBoolean op flip scalar array c =
      elim-counts (array_loop rt op (is_negated op) flip scalar (elements array) c 0 0)
    where
      elim-counts : (n : Counts) → IsBoolean (counted rt (is_negated op) n).0
      elim-counts (ok (i, m), c') = tt
      elim-counts (err x, c') = tt

  array_op-IsBoolean :
      (op : Operator) (l r : Static) (c : List Regexp) → IsBoolean (array_op rt op l r c).0
  unfolding array_op
  array_op-IsBoolean op l r c = grind (arith, on_elements-IsBoolean)

  fallback-IsBoolean :
      (op : Operator) (l r : Static) (c : List Regexp)
      → is_boolean op ≡ true
      → IsBoolean
          (if is_matching_array_element (type_of l) (type_of r)
            then array_op rt op l r c
            else (float_op rt op l r, c)).0
  fallback-IsBoolean op l r c h = grind (arith, array_op-IsBoolean, float_op-IsBoolean)

  value_case-IsBoolean :
      (op : Operator) (l r : Static) (c : List Regexp)
      → is_boolean op ≡ true
      → IsBoolean (value_case rt op l r c).0
  unfolding value_case
  value_case-IsBoolean op (static_string l) (static_string r) c h = string_op-IsBoolean op l r c h
  value_case-IsBoolean op (static_int l) (static_int r) c h = int_op-IsBoolean op l r h
  value_case-IsBoolean op (static_bool l) (static_bool r) c h = bool_op-IsBoolean op l r h
  value_case-IsBoolean op l r c h = fallback-IsBoolean op l r c h

  -- A boolean operator gives a bool or an error.
  pub execute_values-IsBoolean :
      (op : Operator) (l r : Static) (c : List Regexp)
      → is_boolean op ≡ true
      → IsBoolean (execute_values rt op l r c).0
  unfolding execute_values
  execute_values-IsBoolean op l r c h = grind (arith, value_case-IsBoolean)

  float_op-IsNumber :
      (op : Operator) (l r : Static)
      → is_boolean op ≡ false
      → is_number l ≡ true
      → is_number r ≡ true
      → IsNumber l r (float_op rt op l r)
  unfolding float_op is_boolean is_numeric type_of
  float_op-IsNumber op l r h hl hr = ground arith

  int_op-IsNumber :
      (op : Operator) (l r : ℕ)
      → is_boolean op ≡ false
      → IsNumber
          (static_int l)
          (static_int r)
          (or_else (int_op rt op l r) (float_op rt op (static_int l) (static_int r)))
  unfolding int_op float_op is_boolean is_numeric type_of
  int_op-IsNumber op l r h = ground arith

  array_op-IsNumber :
      (op : Operator) (l r : Static) (c : List Regexp)
      → is_boolean op ≡ false
      → IsNumber l r (array_op rt op l r c).0
  unfolding array_op
  array_op-IsNumber op l r c h = rw h tt

  fallback-IsNumber :
      (op : Operator) (l r : Static) (c : List Regexp)
      → is_boolean op ≡ false
      → is_arithmetic (type_of l) ≡ true
      → is_arithmetic (type_of r) ≡ true
      → IsNumber l r
          (if is_matching_array_element (type_of l) (type_of r)
            then array_op rt op l r c
            else (float_op rt op l r, c)).0
  fallback-IsNumber op l r c h hl hr =
      elim (Bool-cases (is_matching_array_element (type_of l) (type_of r))) [
        | inl e ↦ rw e (array_op-IsNumber op l r c h)
        | inr e ↦
            let (nl, nr) = no_arrays (type_of l) (type_of r) hl hr e in
            rw e (float_op-IsNumber op l r h nl nr)
      ]

  value_case-IsNumber :
      (op : Operator) (l r : Static) (c : List Regexp)
      → is_boolean op ≡ false
      → is_arithmetic (type_of l) ≡ true
      → is_arithmetic (type_of r) ≡ true
      → IsNumber l r (value_case rt op l r c).0
  unfolding value_case type_of is_arithmetic
  value_case-IsNumber op (static_string l) (static_string r) c h hl hr = ground arith
  value_case-IsNumber op (static_int l) (static_int r) c h hl hr = int_op-IsNumber op l r h
  value_case-IsNumber op (static_bool l) (static_bool r) c h hl hr = ground arith
  value_case-IsNumber op l r c h hl hr = fallback-IsNumber op l r c h hl hr

  -- An operator that is not boolean gives a number, if both operands are numbers, or an error or the
  -- bool of a mismatch.
  pub execute_values-IsNumber :
      (op : Operator) (l r : Static) (c : List Regexp)
      → is_boolean op ≡ false
      → IsNumber l r (execute_values rt op l r c).0
  unfolding execute_values binary_types_valid
  execute_values-IsNumber op l r c h =
      elim (Bool-cases (
        is_matching_operand (type_of l) (type_of r)
        && binary_types_valid op (type_of l) (type_of r))) [
          | inl e ↦
              let valid : (is_arithmetic (type_of l) ≡ true) × (is_arithmetic (type_of r) ≡ true) =
                grind (arith, type_of-is_arithmetic) in
              rw e (value_case-IsNumber op l r c h valid.0 valid.1)
          | inr e ↦ rw e refl
        ]
