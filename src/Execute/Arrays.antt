-- ===== src/Execute/Arrays.antt =====
-- traceql/ast_execute.go: operators with an array on one side, and all operators once both operands
-- have a value.
use traceql_syntax.Base.{
  ℕ, suc, Bool, true, false, not, ◌&&◌, List, [], ◌∷◌, ◌++◌, Option, none, some, ltb, ◌==◌, length,
  get_elem?, Result, ok, err, if◌then◌else◌,
}
use traceql_syntax.Runtime.{Runtime}
use traceql_syntax.StaticType.{is_array, is_matching_operand, is_matching_array_element}
use traceql_syntax.Operator.{
  Operator, op_not_equal, op_regex, op_not_regex, is_boolean, is_array_op, to_element_op,
  get_flipped_op, binary_types_valid,
}
use traceql_syntax.Static.{Static, static_int, static_string, static_bool, type_of, elements}
use traceql_syntax.Regexp.{Regexp}
use traceql_syntax.Execute.Values.{
  Err, unsupported, two_arrays, array_not_on_right, Cached, or_else, string_op, int_op, float_op,
  bool_op, bin_op_execute_scalar,
}

abbrev pub one_pattern : Option Regexp → List Regexp
one_pattern none = []
one_pattern (some e) = e ∷ []

-- o.compiledExpressions[i : i+1], where there is an element i.
abbrev pub cached_at : List Regexp → ℕ → List Regexp
cached_at c i = one_pattern (get_elem? c i)

-- What is kept after element i: a new pattern goes to the end, if it is the next one.
abbrev pub keep_at : List Regexp → ℕ → List Regexp → List Regexp
keep_at c i new = if length c == i then c ++ new else c

-- `ok && match` of a result
abbrev pub is_match : Static → Bool
is_match (static_bool b) = b
is_match _ = false

-- `!=` and `!~` must hold of every element.
abbrev pub is_negated : Operator → Bool
is_negated op_not_equal = true
is_negated op_not_regex = true
is_negated _ = false

abbrev pub is_regex_op : Operator → Bool
is_regex_op op_regex = true
is_regex_op op_not_regex = true
is_regex_op _ = false

-- The numbers of elements that were looked at and that matched.
abbrev pub Counts : Type 0
Counts = Result Err (ℕ × ℕ) × List Regexp

-- After an element that matched or not: `go` is the rest of the loop.
unfoldable pub after_match : Bool → Bool → List Regexp → ℕ → ℕ → (List Regexp → ℕ → Counts) → Counts
after_match match_all false c i matches go = go c matches
after_match false true c i matches go = (ok (suc i, suc matches), c)
after_match true true c i matches go = go c (suc matches)

-- After the result of element i and the patterns that it used.
unfoldable pub after_element :
    Bool
    → List Regexp
    → ℕ
    → ℕ
    → Result Err Static
    → List Regexp
    → (List Regexp → ℕ → Counts)
    → Counts
unfolding after_match
after_element match_all c i matches (err x) new go = (err x, c)
after_element match_all c i matches (ok v) new go =
    after_match match_all (is_match v) (keep_at c i new) i matches go

module _ (rt : Runtime) where
  -- The operands of one element, exchanged where the array stood on the left of a regex.
  unfoldable pub element_step : Operator → Bool → Static → Static → List Regexp → ℕ → Cached
  element_step op flip scalar elem c i =
      if flip
      then bin_op_execute_scalar rt op elem scalar (cached_at c i)
      else bin_op_execute_scalar rt op scalar elem (cached_at c i)

  -- The loop over the elements; without `match_all` it ends at the first match.
  unfoldable pub array_loop :
      Operator → Bool → Bool → Static → List Static → List Regexp → ℕ → ℕ → Counts
  unfolding element_step after_element
  array_loop op match_all flip scalar [] c i matches = (ok (i, matches), c)
  array_loop op match_all flip scalar (e ∷ es) c i matches =
      let (res, new) = element_step op flip scalar e c i in
      after_element match_all c i matches res new
        (λ c' matches'. array_loop op match_all flip scalar es c' (suc i) matches')

  unfoldable pub counted : Bool → Counts → Cached
  counted match_all (ok (elem_count, match_count), c) =
      (ok (static_bool (if match_all then match_count == elem_count else ltb 0 match_count)), c)
  counted match_all (err x, c) = (err x, c)

  -- The loop on the array side, for the operator that is applied to each element.
  unfoldable pub on_elements : Operator → Bool → Static → Static → List Regexp → Cached
  unfolding array_loop counted elements
  on_elements op flip scalar array c =
      let match_all = is_negated op in
      counted match_all (array_loop op match_all flip scalar (elements array) c 0 0)

  -- The case of an array on one side.
  unfoldable pub array_op : Operator → Static → Static → List Regexp → Cached
  unfolding on_elements is_boolean is_array type_of is_array_op to_element_op get_flipped_op
  array_op op l r c =
      if not (is_boolean op)
      then (err unsupported, c)
      else if is_array (type_of l) && is_array (type_of r)
      then (err two_arrays, c)
      else if is_array_op op
      then (if is_array (type_of r)
          then on_elements (to_element_op op) false l r c
          else (err array_not_on_right, c))
      else if is_array (type_of l)
      then on_elements (get_flipped_op op) (is_regex_op (get_flipped_op op)) r l c
      else on_elements op false l r c

  -- The switch of execute. Two strings, two ints and two bools come first.
  unfoldable pub value_case : Operator → Static → Static → List Regexp → Cached
  unfolding array_op string_op int_op bool_op float_op is_matching_array_element type_of
  value_case op (static_string l) (static_string r) c =
      or_else (string_op rt op l r c) (float_op rt op (static_string l) (static_string r), c)
  value_case op (static_int l) (static_int r) c =
      (or_else (int_op rt op l r) (float_op rt op (static_int l) (static_int r)), c)
  value_case op (static_bool l) (static_bool r) c =
      (or_else (bool_op op l r) (float_op rt op (static_bool l) (static_bool r)), c)
  value_case op l r c =
      if is_matching_array_element (type_of l) (type_of r)
      then array_op op l r c
      else (float_op rt op l r, c)

  -- What execute does with the values of its operands.
  unfoldable pub execute_values : Operator → Static → Static → List Regexp → Cached
  unfolding value_case is_matching_operand binary_types_valid type_of bin_op_execute_scalar
  execute_values op l r c =
      if is_matching_operand (type_of l) (type_of r)
        && binary_types_valid op (type_of l) (type_of r)
      then value_case op l r c
      else (ok (static_bool false), c)
