-- ===== src/Rewrite/Reads.antt =====
-- A comparison that a rule of the rewriter takes says that the attribute's value passes the rule's
-- scalar operator with some element of the static (under OR), or with every element (under AND).
use traceql_syntax.Base.{
  Bool, true, false, ◌&&◌, ◌||◌, List, [], ◌∷◌, any, all, ok, ◌≡◌, refl, ap, ◌∙◌,
}
use traceql_syntax.Runtime.{Runtime}
use traceql_syntax.StaticType.{is_array}
use traceql_syntax.Operator.{
  Operator, op_equal, op_not_equal, op_regex, op_not_regex, op_in, op_not_in, op_regex_match_any,
  op_regex_match_none, op_eq, op_or,
}
use traceql_syntax.Static.{
  Static, static_string, static_bool, static_int_array, static_float_array, static_string_array,
  static_boolean_array, elements, type_of,
}
use traceql_syntax.Execute.Elements.{test}
use traceql_syntax.Execute.Settled.{operation_value}
use traceql_syntax.Execute.{short_circuit}
use traceql_syntax.Rewrite.{
  Rule, contains_op, or_to_in, and_to_not_in, or_to_match_any, and_to_match_none,
}
use traceql_syntax.Rewrite.Comparisons.{IsScalar}
use traceql_syntax.Rewrite.Operands.{
  Operand, equal_value, not_equal_value, regex_value, not_regex_value,
}
use traceql_syntax.Rewrite.Joined.Any
use traceql_syntax.Rewrite.Joined.All as Every

-- The quantifier of the outer operator.
abbrev pub quantified : Operator → (Static → Bool) → List Static → Bool
quantified op_or p es = any p es
quantified _ p es = all p es

-- What the comparisons of a rule say.
abbrev pub Reads : Runtime → Rule → Type 0
Reads rt rule =
    (op : Operator) (x s : Static)
    → contains_op (rule.scalar ∷ rule.array ∷ []) op ≡ true
    → Operand rt op s
    → IsScalar x
    → operation_value rt op x (ok s)
      ≡ ok (static_bool (quantified rule.outer (test rt rule.scalar x) (elements s)))

true≢false : true ≡ false → ⊥
true≢false h = cc

or_false : (b : Bool) → b ≡ (b || false)
or_false true = refl
or_false false = refl

and_true : (b : Bool) → b ≡ (b && true)
and_true true = refl
and_true false = refl

any_one : (p : Static → Bool) (s : Static) → IsScalar s → p s ≡ any p (elements s)
unfolding any elements is_array type_of
any_one p (static_int_array x) h = absurd (true≢false h)
any_one p (static_float_array x) h = absurd (true≢false h)
any_one p (static_string_array x) h = absurd (true≢false h)
any_one p (static_boolean_array x) h = absurd (true≢false h)
any_one p s h = or_false _

all_one : (p : Static → Bool) (s : Static) → IsScalar s → p s ≡ all p (elements s)
unfolding all elements is_array type_of
all_one p (static_int_array x) h = absurd (true≢false h)
all_one p (static_float_array x) h = absurd (true≢false h)
all_one p (static_string_array x) h = absurd (true≢false h)
all_one p (static_boolean_array x) h = absurd (true≢false h)
all_one p s h = and_true _

module _ (rt : Runtime) where
  pub Reads-or_to_in : Reads rt or_to_in
  unfolding short_circuit op_eq any
  Reads-or_to_in op_equal x s m o h =
      equal_value rt x s h o ∙ ap (λ b. ok (static_bool b)) (any_one (test rt op_equal x) s o)
  Reads-or_to_in op_in x (static_int_array (n ∷ ns)) m o h = Any.in_ints rt x n ns h
  Reads-or_to_in op_in x (static_float_array (n ∷ ns)) m o h = Any.in_floats rt x n ns h
  Reads-or_to_in op_in x (static_string_array (n ∷ ns)) m o h = Any.in_strings rt x n ns h
  Reads-or_to_in op_in x (static_boolean_array (n ∷ ns)) m o h = Any.in_bools rt x n ns h
  Reads-or_to_in op_in x (static_int_array []) m o h = absurd o
  Reads-or_to_in op_in x (static_float_array []) m o h = absurd o
  Reads-or_to_in op_in x (static_string_array []) m o h = absurd o
  Reads-or_to_in op_in x (static_boolean_array []) m o h = absurd o
  Reads-or_to_in op_in x _ m o h = absurd o
  Reads-or_to_in _ x s m o h = cc

  pub Reads-and_to_not_in : Reads rt and_to_not_in
  unfolding short_circuit op_eq any
  Reads-and_to_not_in op_not_equal x s m o h =
      not_equal_value rt x s h o
      ∙ ap (λ b. ok (static_bool b)) (all_one (test rt op_not_equal x) s o)
  Reads-and_to_not_in op_not_in x (static_int_array (n ∷ ns)) m o h = Every.not_in_ints rt x n ns h
  Reads-and_to_not_in op_not_in x (static_float_array (n ∷ ns)) m o h =
      Every.not_in_floats rt x n ns h
  Reads-and_to_not_in op_not_in x (static_string_array (n ∷ ns)) m o h =
      Every.not_in_strings rt x n ns h
  Reads-and_to_not_in op_not_in x (static_boolean_array (n ∷ ns)) m o h =
      Every.not_in_bools rt x n ns h
  Reads-and_to_not_in op_not_in x (static_int_array []) m o h = absurd o
  Reads-and_to_not_in op_not_in x (static_float_array []) m o h = absurd o
  Reads-and_to_not_in op_not_in x (static_string_array []) m o h = absurd o
  Reads-and_to_not_in op_not_in x (static_boolean_array []) m o h = absurd o
  Reads-and_to_not_in op_not_in x _ m o h = absurd o
  Reads-and_to_not_in _ x s m o h = cc

  pub Reads-or_to_match_any : Reads rt or_to_match_any
  unfolding short_circuit op_eq any is_array type_of
  Reads-or_to_match_any op_regex x (static_string p) m o h =
      regex_value rt x p h o
      ∙ ap (λ b. ok (static_bool b)) (any_one (test rt op_regex x) (static_string p) refl)
  Reads-or_to_match_any op_regex x _ m o h = absurd o
  Reads-or_to_match_any op_regex_match_any x (static_string_array (p ∷ ps)) m o h =
      Any.match_any_strings rt x p ps h o
  Reads-or_to_match_any op_regex_match_any x (static_string_array []) m o h = absurd o
  Reads-or_to_match_any op_regex_match_any x _ m o h = absurd o
  Reads-or_to_match_any _ x s m o h = cc

  pub Reads-and_to_match_none : Reads rt and_to_match_none
  unfolding short_circuit op_eq any is_array type_of
  Reads-and_to_match_none op_not_regex x (static_string p) m o h =
      not_regex_value rt x p h o
      ∙ ap (λ b. ok (static_bool b)) (all_one (test rt op_not_regex x) (static_string p) refl)
  Reads-and_to_match_none op_not_regex x _ m o h = absurd o
  Reads-and_to_match_none op_regex_match_none x (static_string_array (p ∷ ps)) m o h =
      Every.match_none_strings rt x p ps h o
  Reads-and_to_match_none op_regex_match_none x (static_string_array []) m o h = absurd o
  Reads-and_to_match_none op_regex_match_none x _ m o h = absurd o
  Reads-and_to_match_none _ x s m o h = cc
