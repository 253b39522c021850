-- ===== src/Operator/Equality.antt =====
-- Operators that op_eq takes for equal are the same.
use traceql_syntax.Base.{true, List, [], ◌∷◌, get_elem?, some, ==_iff, ◌≡◌, refl, sym, ap, ◌∙◌}
use mathlib.Core.Option.{some-injective}
use traceql_syntax.Operator.{
  Operator, code, op_eq, op_none, op_add, op_sub, op_div, op_mod, op_mult, op_equal, op_not_equal,
  op_regex, op_not_regex, op_greater, op_greater_equal, op_less, op_less_equal, op_power, op_and,
  op_or, op_not, op_spanset_child, op_spanset_parent, op_spanset_descendant, op_spanset_ancestor,
  op_spanset_and, op_spanset_union, op_spanset_sibling, op_spanset_not_child, op_spanset_not_parent,
  op_spanset_not_sibling, op_spanset_not_ancestor, op_spanset_not_descendant,
  op_spanset_union_child, op_spanset_union_parent, op_spanset_union_sibling,
  op_spanset_union_ancestor, op_spanset_union_descendant, op_exists, op_not_exists, op_in,
  op_not_in, op_regex_match_any, op_regex_match_none,
}

abbrev operators : List Operator
operators =
    op_none ∷ op_add ∷ op_sub ∷ op_div ∷ op_mod ∷ op_mult ∷ op_equal ∷ op_not_equal ∷ op_regex
    ∷ op_not_regex ∷ op_greater ∷ op_greater_equal ∷ op_less ∷ op_less_equal ∷ op_power ∷ op_and
    ∷ op_or ∷ op_not ∷ op_spanset_child ∷ op_spanset_parent ∷ op_spanset_descendant
    ∷ op_spanset_ancestor ∷ op_spanset_and ∷ op_spanset_union ∷ op_spanset_sibling
    ∷ op_spanset_not_child ∷ op_spanset_not_parent ∷ op_spanset_not_sibling
    ∷ op_spanset_not_ancestor ∷ op_spanset_not_descendant ∷ op_spanset_union_child
    ∷ op_spanset_union_parent ∷ op_spanset_union_sibling ∷ op_spanset_union_ancestor
    ∷ op_spanset_union_descendant ∷ op_exists ∷ op_not_exists ∷ op_in ∷ op_not_in
    ∷ op_regex_match_any ∷ op_regex_match_none ∷ []

operator_decoded : (op : Operator) → get_elem? operators (code op) ≡ some op
unfolding code
operator_decoded op_none = refl
operator_decoded _ = refl

pub op_eq_sound : (a b : Operator) → op_eq a b ≡ true → a ≡ b
unfolding op_eq
op_eq_sound a b h = some-injective a b (
    sym (operator_decoded a)
    ∙ (ap (get_elem? operators) ((==_iff (code a) (code b)).0 h) ∙ operator_decoded b))
