-- ===== src/Rewrite/Pass.antt =====
-- The whole pass of the rewriter keeps the meaning of an expression.
use traceql_syntax.Base.{ℕ, ◌+◌, true, [], ◌∷◌, any, ◌≡◌, refl, sym, ◌∙◌, absurd_test}
use mathlib.Core.Path.{subst}
use traceql_syntax.Runtime.{Runtime}
use traceql_syntax.Operator.{
  Operator, op_equal, op_not_equal, op_regex, op_not_regex, op_in, op_not_in, op_regex_match_any,
  op_regex_match_none, op_eq,
}
use traceql_syntax.Expr.{Expr, binary, unary, unary_ref, static, attribute, references_span}
use traceql_syntax.Execute.{Span}
use traceql_syntax.Execute.Settled.{value}
use traceql_syntax.Build.{new_binary_operation, new_unary_operation}
use traceql_syntax.Rewrite.{
  Rule, rules, or_to_in, and_to_not_in, or_to_match_any, and_to_match_none, contains_op,
  rewrite_binary_operations_to_array_equivalent, apply_rules, rewrite_field_expression,
}
use traceql_syntax.Rewrite.Rules.{
  or_to_in-IsFit, and_to_not_in-IsFit, or_to_match_any-IsFit, and_to_match_none-IsFit,
}
use traceql_syntax.Rewrite.Plain.{IsScalarSpan, is_joinable, IsPlain, Keeps, Keeps-trans}
use traceql_syntax.Rewrite.Sound.{new_node-Keeps, rule-Keeps}

-- The operators of a rule are among those that the rewriter joins.
abbrev Joins : Rule → Type 0
Joins rule =
    (op : Operator) → contains_op (rule.scalar ∷ rule.array ∷ []) op ≡ true → is_joinable op ≡ true

or_to_in-Joins : Joins or_to_in
unfolding op_eq any
or_to_in-Joins op_equal m = refl
or_to_in-Joins op_in m = refl
or_to_in-Joins _ m = absurd_test (sym m)

and_to_not_in-Joins : Joins and_to_not_in
unfolding op_eq any
and_to_not_in-Joins op_not_equal m = refl
and_to_not_in-Joins op_not_in m = refl
and_to_not_in-Joins _ m = absurd_test (sym m)

or_to_match_any-Joins : Joins or_to_match_any
unfolding op_eq any
or_to_match_any-Joins op_regex m = refl
or_to_match_any-Joins op_regex_match_any m = refl
or_to_match_any-Joins _ m = absurd_test (sym m)

and_to_match_none-Joins : Joins and_to_match_none
unfolding op_eq any
and_to_match_none-Joins op_not_regex m = refl
and_to_match_none-Joins op_regex_match_none m = refl
and_to_match_none-Joins _ m = absurd_test (sym m)

module _ (rt : Runtime) where
  -- The four rules in turn.
  rules_keep : (e : Expr) (n : ℕ) → IsPlain rt e → Keeps rt e (apply_rules rt rules (e, n)).0
  unfolding apply_rules
  rules_keep e n p =
      let after =
        λ (rule : Rule) (f : Expr). (rewrite_binary_operations_to_array_equivalent rt rule f).0 in
      let e1 = after or_to_in e in
      let e2 = after and_to_not_in e1 in
      let e3 = after or_to_match_any e2 in
      let k1 = rule-Keeps rt or_to_in or_to_in-Joins (or_to_in-IsFit rt) e p in
      let k2 =
        rule-Keeps rt and_to_not_in and_to_not_in-Joins (and_to_not_in-IsFit rt) e1 k1.plain in
      let k3 =
        rule-Keeps rt or_to_match_any or_to_match_any-Joins (or_to_match_any-IsFit rt) e2
          k2.plain in
      let k4 =
        rule-Keeps rt and_to_match_none and_to_match_none-Joins (and_to_match_none-IsFit rt) e3
          k3.plain in
      Keeps-trans (Keeps-trans k1 k2) (Keeps-trans k3 k4)

  -- A negation that is met through a pointer becomes a value over the rewritten operand.
  new_unary-Keeps :
      (op : Operator) (e e' : Expr)
      → references_span e ≡ true
      → Keeps rt e e'
      → Keeps rt (unary_ref op e) (new_unary_operation rt op e')
  unfolding new_unary_operation references_span value
  new_unary-Keeps op e e' r k =
      let refs : references_span e' ≡ true = k.references ∙ r in
      let made : new_unary_operation rt op e' ≡ unary op e' = rw refs refl in
      subst (Keeps rt (unary_ref op e)) (sym made) (record {
        plain = tt;
        meaning = λ span s. rw (k.meaning span s) refl;
        references = k.references;
        leaf = λ h. absurd_test (sym h);
        inner = λ h. refl;
      })

  rewrite-Keeps : (e : Expr) → IsPlain rt e → Keeps rt e (rewrite_field_expression rt e).0
  unfolding rewrite_field_expression
  rewrite-Keeps (binary op l r c b) p =
      let (l', n) = rewrite_field_expression rt l in
      let (r', m) = rewrite_field_expression rt r in
      let node = new_node-Keeps rt op l r l' r' c b (rewrite-Keeps l p.0) (rewrite-Keeps r p.1) p in
      Keeps-trans node (rules_keep (new_binary_operation rt op l' r') (n + m) node.plain)
  rewrite-Keeps (unary_ref op e) p =
      let (e', n) = rewrite_field_expression rt e in
      let node = new_unary-Keeps op e e' p.1 (rewrite-Keeps e p.0) in
      Keeps-trans node (rules_keep (new_unary_operation rt op e') n node.plain)
  rewrite-Keeps (unary op e) p = rules_keep (unary op e) 0 p
  rewrite-Keeps (static s) p = rules_keep (static s) 0 p
  rewrite-Keeps (attribute a) p = rules_keep (attribute a) 0 p

-- Rewriting a plain expression keeps its settled result, errors included, on every span none of whose
-- attributes is an array; the rewritten expression is plain again, and references the span exactly
-- when the old one does. An expression is plain if every operation that the pass meets references
-- the span, each comparison of an attribute with a static has the attribute on the left and a static
-- that suits its operator (with patterns that compile), and trace ids have no leading zeros.
pub rewrite_sound :
    (rt : Runtime) (e : Expr)
    → IsPlain rt e
    → ((span : Span)
        → IsScalarSpan span
        → value rt (rewrite_field_expression rt e).0 span ≡ value rt e span)
      × IsPlain rt (rewrite_field_expression rt e).0
      × (references_span (rewrite_field_expression rt e).0 ≡ references_span e)
rewrite_sound rt e p = let k = rewrite-Keeps rt e p in (k.meaning, k.plain, k.references)
