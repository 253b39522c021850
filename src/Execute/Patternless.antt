-- ===== src/Execute/Patternless.antt =====
-- traceql/ast_execute.go: operators that take no pattern keep none.
use traceql_syntax.Base.{
  ℕ, suc, Bool, true, false, List, [], ◌∷◌, ok, err, Result, ◌≡◌, ◌==◌, length, refl, arith,
  Bool-cases, inl, inr, Text, if◌then◌else◌,
}
use traceql_syntax.Runtime.{Runtime}
use traceql_syntax.Operator.{
  Operator, op_regex_match_any, op_regex_match_none, to_element_op, get_flipped_op,
}
use traceql_syntax.StaticType.{is_matching_array_element}
use traceql_syntax.Static.{Static, static_string, static_int, static_bool, type_of, elements}
use traceql_syntax.Regexp.{Regexp}
use traceql_syntax.Execute.Values.{
  Err, or_else, string_op, float_op, bin_op_execute_scalar, scalar_case,
}
use traceql_syntax.Execute.Arrays.{
  Counts, is_regex_op, is_match, is_negated, keep_at, after_match, after_element, element_step,
  array_loop, counted, on_elements, array_op, value_case, execute_values,
}

-- The operators whose right operand is a pattern, or an array of patterns.
abbrev pub takes_pattern : Operator → Bool
takes_pattern op_regex_match_any = true
takes_pattern op_regex_match_none = true
takes_pattern op = is_regex_op op

keep_none : (i : ℕ) → keep_at [] i [] ≡ []
keep_none i = elim (Bool-cases (length {A = Regexp} [] == i)) [
  | inl e ↦ rw e refl
  | inr e ↦ rw e refl
]

module _ (rt : Runtime) where
  string_op-patternless :
      (op : Operator) (l r : Text)
      → is_regex_op op ≡ false
      → (or_else
          (string_op rt op l r [])
          (float_op rt op (static_string l) (static_string r), [])).1
        ≡ []
  unfolding string_op
  string_op-patternless op l r h = ground arith

  scalar_case-patternless :
      (op : Operator) (l r : Static) → is_regex_op op ≡ false → (scalar_case rt op l r []).1 ≡ []
  unfolding scalar_case
  scalar_case-patternless op (static_string l) (static_string r) h = string_op-patternless op l r h
  scalar_case-patternless op (static_int l) (static_int r) h = refl
  scalar_case-patternless op (static_bool l) (static_bool r) h = refl
  scalar_case-patternless op _ _ h = refl

  scalar-patternless :
      (op : Operator) (l r : Static)
      → is_regex_op op ≡ false
      → (bin_op_execute_scalar rt op l r []).1 ≡ []
  unfolding bin_op_execute_scalar
  scalar-patternless op l r h = grind (arith, scalar_case-patternless)

  element_step-patternless :
      (op : Operator) (flip : Bool) (scalar elem : Static) (i : ℕ)
      → is_regex_op op ≡ false
      → (element_step rt op flip scalar elem [] i).1 ≡ []
  unfolding element_step
  element_step-patternless op true scalar elem i h = scalar-patternless op elem scalar h
  element_step-patternless op false scalar elem i h = scalar-patternless op scalar elem h

  after_match-patternless :
      (match_all matched : Bool) (i n : ℕ) (go : List Regexp → ℕ → Counts)
      → ((m : ℕ) → (go [] m).1 ≡ [])
      → (after_match match_all matched [] i n go).1 ≡ []
  unfolding after_match
  after_match-patternless match_all false i n go h = h n
  after_match-patternless false true i n go h = refl
  after_match-patternless true true i n go h = h (suc n)

  after_element-patternless :
      (match_all : Bool) (i n : ℕ) (res : Result Err Static) (go : List Regexp → ℕ → Counts)
      → ((m : ℕ) → (go [] m).1 ≡ [])
      → (after_element match_all [] i n res [] go).1 ≡ []
  unfolding after_element
  after_element-patternless match_all i n (err x) go h = refl
  after_element-patternless match_all i n (ok v) go h =
      rw (keep_none i) (after_match-patternless match_all (is_match v) i n go h)

  array_loop-patternless :
      (op : Operator) (match_all flip : Bool) (scalar : Static) (es : List Static) (i n : ℕ)
      → is_regex_op op ≡ false
      → (array_loop rt op match_all flip scalar es [] i n).1 ≡ []
  unfolding array_loop
  array_loop-patternless op match_all flip scalar [] i n h = refl
  array_loop-patternless op match_all flip scalar (e ∷ es) i n h =
      rw (element_step-patternless op flip scalar e i h) (
        after_element-patternless match_all i n (element_step rt op flip scalar e [] i).0
          (λ c m. array_loop rt op match_all flip scalar es c (suc i) m)
          (λ m. array_loop-patternless op match_all flip scalar es (suc i) m h))

  counted-patternless : (match_all : Bool) (n : Counts) → n.1 ≡ [] → (counted rt match_all n).1 ≡ []
  unfolding counted
  counted-patternless match_all (ok (i, m), c) h = h
  counted-patternless match_all (err x, c) h = h

  on_elements-patternless :
      (op : Operator) (flip : Bool) (scalar array : Static)
      → is_regex_op op ≡ false
      → (on_elements rt op flip scalar array []).1 ≡ []
  unfolding on_elements
  on_elements-patternless op flip scalar array h =
      counted-patternless (is_negated op)
        (array_loop rt op (is_negated op) flip scalar (elements array) [] 0 0)
        (array_loop-patternless op (is_negated op) flip scalar (elements array) 0 0 h)

  element_ops-patternless :
      (op : Operator)
      → takes_pattern op ≡ false
      → (is_regex_op op ≡ false)
        × (is_regex_op (to_element_op op) ≡ false)
        × (is_regex_op (get_flipped_op op) ≡ false)
  unfolding to_element_op get_flipped_op
  element_ops-patternless op h = ground arith

  array_op-patternless :
      (op : Operator) (l r : Static) → takes_pattern op ≡ false → (array_op rt op l r []).1 ≡ []
  unfolding array_op
  array_op-patternless op l r h =
      let (plain, element, flipped) = element_ops-patternless op h in
      grind (arith, on_elements-patternless)

  fallback-patternless :
      (op : Operator) (l r : Static)
      → takes_pattern op ≡ false
      → (if is_matching_array_element (type_of l) (type_of r)
          then array_op rt op l r []
          else (float_op rt op l r, [])).1
        ≡ []
  fallback-patternless op l r h =
      elim (Bool-cases (is_matching_array_element (type_of l) (type_of r))) [
        | inl e ↦ rw e (array_op-patternless op l r h)
        | inr e ↦ rw e refl
      ]

  value_case-patternless :
      (op : Operator) (l r : Static) → takes_pattern op ≡ false → (value_case rt op l r []).1 ≡ []
  unfolding value_case
  value_case-patternless op (static_string l) (static_string r) h =
      string_op-patternless op l r (element_ops-patternless op h).0
  value_case-patternless op (static_int l) (static_int r) h = refl
  value_case-patternless op (static_bool l) (static_bool r) h = refl
  value_case-patternless op l r h = fallback-patternless op l r h

  pub execute_values-patternless :
      (op : Operator) (l r : Static)
      → takes_pattern op ≡ false
      → (execute_values rt op l r []).1 ≡ []
  unfolding execute_values
  execute_values-patternless op l r h = grind (arith, value_case-patternless)
