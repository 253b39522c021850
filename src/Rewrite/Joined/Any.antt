-- ===== src/Rewrite/Joined/Any.antt =====
-- What the comparisons that the rewriter joins by OR mean for a value that is no array: it passes
-- the scalar operator with some element of the static.
use traceql_syntax.Base.{ℕ, Bool, List, [], ◌∷◌, map, any, All, ok, Text, ◌≡◌, refl, sym, ap, arith}
use traceql_syntax.Runtime.{Runtime}
use traceql_syntax.Operator.{op_equal, op_regex, op_in, op_regex_match_any}
use traceql_syntax.Static.{
  Static, static_int, static_float, static_duration, static_string, static_bool, static_int_array,
  static_float_array, static_string_array, static_boolean_array, elements,
}
use traceql_syntax.Execute.Arrays.{execute_values}
use traceql_syntax.Execute.Elements.{test, loop_any}
use traceql_syntax.Rewrite.Comparisons.{IsScalar, Compiles, any-false, All-map, All-of, regex-Tests}

module _ (rt : Runtime) where
  pub in_ints :
      (x : Static) (n : ℕ) (ns : List ℕ)
      → IsScalar x
      → (execute_values rt op_in x (static_int_array (n ∷ ns)) []).0
        ≡ ok (static_bool (any (test rt op_equal x) (elements (static_int_array (n ∷ ns)))))
  unfolding execute_values elements test
  in_ints (static_int x) n ns h =
      loop_any rt op_equal (static_int x) (map static_int (n ∷ ns)) [] 0 (omega arith)
        (All-map _ static_int (n ∷ ns) (λ a. (refl, omega arith)))
  in_ints (static_float x) n ns h =
      loop_any rt op_equal (static_float x) (map static_int (n ∷ ns)) [] 0 (omega arith)
        (All-map _ static_int (n ∷ ns) (λ a. (refl, omega arith)))
  in_ints (static_duration x) n ns h =
      loop_any rt op_equal (static_duration x) (map static_int (n ∷ ns)) [] 0 (omega arith)
        (All-map _ static_int (n ∷ ns) (λ a. (refl, omega arith)))
  in_ints (static_int_array x) n ns h = cc
  in_ints (static_float_array x) n ns h = cc
  in_ints (static_string_array x) n ns h = cc
  in_ints (static_boolean_array x) n ns h = cc
  in_ints x n ns h =
      ap (λ b. ok (static_bool b))
        (sym (any-false (test rt op_equal x) static_int (n ∷ ns) (λ a. refl)))

  pub in_floats :
      (x : Static) (n : ℕ) (ns : List ℕ)
      → IsScalar x
      → (execute_values rt op_in x (static_float_array (n ∷ ns)) []).0
        ≡ ok (static_bool (any (test rt op_equal x) (elements (static_float_array (n ∷ ns)))))
  unfolding execute_values elements test
  in_floats (static_int x) n ns h =
      loop_any rt op_equal (static_int x) (map static_float (n ∷ ns)) [] 0 (omega arith)
        (All-map _ static_float (n ∷ ns) (λ a. (refl, omega arith)))
  in_floats (static_float x) n ns h =
      loop_any rt op_equal (static_float x) (map static_float (n ∷ ns)) [] 0 (omega arith)
        (All-map _ static_float (n ∷ ns) (λ a. (refl, omega arith)))
  in_floats (static_duration x) n ns h =
      loop_any rt op_equal (static_duration x) (map static_float (n ∷ ns)) [] 0 (omega arith)
        (All-map _ static_float (n ∷ ns) (λ a. (refl, omega arith)))
  in_floats (static_int_array x) n ns h = cc
  in_floats (static_float_array x) n ns h = cc
  in_floats (static_string_array x) n ns h = cc
  in_floats (static_boolean_array x) n ns h = cc
  in_floats x n ns h =
      ap (λ b. ok (static_bool b))
        (sym (any-false (test rt op_equal x) static_float (n ∷ ns) (λ a. refl)))

  pub in_strings :
      (x : Static) (n : Text) (ns : List Text)
      → IsScalar x
      → (execute_values rt op_in x (static_string_array (n ∷ ns)) []).0
        ≡ ok (static_bool (any (test rt op_equal x) (elements (static_string_array (n ∷ ns)))))
  unfolding execute_values elements test
  in_strings (static_string x) n ns h =
      loop_any rt op_equal (static_string x) (map static_string (n ∷ ns)) [] 0 (omega arith)
        (All-map _ static_string (n ∷ ns) (λ a. (refl, omega arith)))
  in_strings (static_int_array x) n ns h = cc
  in_strings (static_float_array x) n ns h = cc
  in_strings (static_string_array x) n ns h = cc
  in_strings (static_boolean_array x) n ns h = cc
  in_strings x n ns h =
      ap (λ b. ok (static_bool b))
        (sym (any-false (test rt op_equal x) static_string (n ∷ ns) (λ a. refl)))

  pub in_bools :
      (x : Static) (n : Bool) (ns : List Bool)
      → IsScalar x
      → (execute_values rt op_in x (static_boolean_array (n ∷ ns)) []).0
        ≡ ok (static_bool (any (test rt op_equal x) (elements (static_boolean_array (n ∷ ns)))))
  unfolding execute_values elements test
  in_bools (static_bool x) n ns h =
      loop_any rt op_equal (static_bool x) (map static_bool (n ∷ ns)) [] 0 (omega arith)
        (All-map _ static_bool (n ∷ ns) (λ a. (refl, omega arith)))
  in_bools (static_int_array x) n ns h = cc
  in_bools (static_float_array x) n ns h = cc
  in_bools (static_string_array x) n ns h = cc
  in_bools (static_boolean_array x) n ns h = cc
  in_bools x n ns h =
      ap (λ b. ok (static_bool b))
        (sym (any-false (test rt op_equal x) static_bool (n ∷ ns) (λ a. refl)))

  pub match_any_strings :
      (x : Static) (n : Text) (ns : List Text)
      → IsScalar x
      → All (Compiles rt) (n ∷ ns)
      → (execute_values rt op_regex_match_any x (static_string_array (n ∷ ns)) []).0
        ≡ ok (static_bool (any (test rt op_regex x) (elements (static_string_array (n ∷ ns)))))
  unfolding execute_values elements test
  match_any_strings (static_string x) n ns h c =
      loop_any rt op_regex (static_string x) (map static_string (n ∷ ns)) [] 0 (omega arith)
        (All-of _ _ static_string (n ∷ ns) (regex-Tests rt x) c)
  match_any_strings (static_int_array x) n ns h c = cc
  match_any_strings (static_float_array x) n ns h c = cc
  match_any_strings (static_string_array x) n ns h c = cc
  match_any_strings (static_boolean_array x) n ns h c = cc
  match_any_strings x n ns h c =
      ap (λ b. ok (static_bool b))
        (sym (any-false (test rt op_regex x) static_string (n ∷ ns) (λ a. refl)))
