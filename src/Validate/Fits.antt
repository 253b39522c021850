-- ===== src/Validate/Fits.antt =====
-- traceql/ast_validate.go with traceql/ast_execute.go: the values that go with a type, and what each
-- operation gives of operands whose values do.
use traceql_syntax.Base.{
  Bool, true, false, ◌||◌, List, some, Result, ok, err, if◌then◌else◌, ◌≡◌, refl, arith, Bool-cases,
  inl, inr,
}
use traceql_syntax.Runtime.{Runtime}
use traceql_syntax.StaticType.{StaticType, type_attribute, type_boolean, is_numeric, type_eq}
use traceql_syntax.Operator.{Operator, is_boolean, unary_types_valid}
use traceql_syntax.Static.{Static, static_nil, static_bool, type_of}
use traceql_syntax.Regexp.{Regexp}
use traceql_syntax.Expr.{cond_type, first_known, is_existence}
use traceql_syntax.Execute.{short_circuit, unary_value}
use traceql_syntax.Execute.Values.{Err}
use traceql_syntax.Execute.Arrays.{execute_values}
use traceql_syntax.Validate.Results.{
  IsBoolean, IsNumber, is_mismatch, is_number, execute_values-IsBoolean, execute_values-IsNumber,
}

-- What stands for a value that is not there: nil, and the bool of a mismatch.
is_missing : Static → Bool
is_missing static_nil = true
is_missing v = is_mismatch v

is_bool : Static → Bool
is_bool (static_bool b) = true
is_bool v = false

-- Whether a value goes with a type: any does with that of an attribute, and any number with one of
-- the types of numbers.
unfoldable pub fits : StaticType → Static → Bool
unfolding is_missing is_bool is_numeric type_eq type_of
fits type_attribute v = true
fits type_boolean v = is_bool v
fits t v = is_missing v || (if is_numeric t then is_number v else type_eq t (type_of v))

-- An error, or a value that goes with the type.
abbrev pub Fits : StaticType → Result Err Static → Type 0
Fits t (ok v) = fits t v ≡ true
Fits t (err x) = Unit

pub fits-type_of : (v : Static) → fits (type_of v) v ≡ true
unfolding fits type_of
fits-type_of v = ground arith

-- A number goes with a type only where the type is unknown, or that of a number.
fits_number :
    (t : StaticType) (v : Static)
    → fits t v ≡ true
    → is_number v ≡ true
    → (type_eq t type_attribute || is_numeric t) ≡ true
unfolding fits type_eq is_numeric type_of
fits_number t v h k = ground arith

number_fits :
    (t : StaticType) (v : Static)
    → is_number v ≡ true
    → (type_eq t type_attribute || is_numeric t) ≡ true
    → fits t v ≡ true
unfolding fits type_eq is_numeric type_of
number_fits t v h k = ground arith

mismatch_fits : (t : StaticType) (v : Static) → is_mismatch v ≡ true → fits t v ≡ true
unfolding fits
mismatch_fits t v h = ground arith

first_known_numeric :
    (t o : StaticType)
    → (type_eq t type_attribute || is_numeric t) ≡ true
    → (type_eq o type_attribute || is_numeric o) ≡ true
    → (type_eq (first_known t o) type_attribute || is_numeric (first_known t o)) ≡ true
unfolding type_eq is_numeric
first_known_numeric t o h k = ground arith

IsBoolean-Fits : (r : Result Err Static) → IsBoolean r → Fits type_boolean r
unfolding fits
IsBoolean-Fits (ok (static_bool b)) h = refl
IsBoolean-Fits (ok _) h = absurd h
IsBoolean-Fits (err x) h = tt

IsNumber-Fits :
    (t o : StaticType) (l r : Static) (res : Result Err Static)
    → fits t l ≡ true
    → fits o r ≡ true
    → IsNumber l r res
    → Fits (first_known t o) res
IsNumber-Fits t o l r (err x) hl hr h = tt
IsNumber-Fits t o l r (ok v) hl hr h =
    grind (arith, mismatch_fits, number_fits, fits_number, first_known_numeric)

-- The operation on two values that go with the types of its operands.
pub execute_values-Fits :
    (rt : Runtime) (op : Operator) (t o : StaticType) (l r : Static) (c : List Regexp)
    → fits t l ≡ true
    → fits o r ≡ true
    → Fits (cond_type (is_boolean op) (first_known t o)) (execute_values rt op l r c).0
execute_values-Fits rt op t o l r c hl hr = elim (Bool-cases (is_boolean op)) [
  | inl e ↦
      rw e (IsBoolean-Fits (execute_values rt op l r c).0 (execute_values-IsBoolean rt op l r c e))
  | inr e ↦ rw e (
      IsNumber-Fits t o l r (execute_values rt op l r c).0 hl hr
        (execute_values-IsNumber rt op l r c e))
]

-- A short circuit gives a bool, and only for a boolean operator.
pub short_circuit-Fits :
    (recording : Bool) (op : Operator) (l v : Static) (t : StaticType)
    → short_circuit recording op l ≡ some v
    → fits (cond_type (is_boolean op) t) v ≡ true
unfolding short_circuit is_boolean fits
short_circuit-Fits recording op l v t h = ground arith

-- A unary operation that is valid for the type of its operand.
pub unary_value-Fits :
    (rt : Runtime) (op : Operator) (t : StaticType) (v : Static)
    → unary_types_valid op t ≡ true
    → fits t v ≡ true
    → Fits (cond_type (is_existence op) t) (unary_value rt op v)
unfolding unary_types_valid unary_value fits
unary_value-Fits rt op t v h k = ground arith
