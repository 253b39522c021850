-- ===== src/Rewrite/Plain.antt =====
-- The expressions whose meaning the rewriter is shown to keep, and what it is to keep it.
use traceql_syntax.Base.{
  Bool, true, false, ◌||◌, ◌≡◌, refl, sym, ap, ◌∙◌, inl, inr, ◌⊎◌, absurd_test, Bool-cases,
}
use mathlib.Core.Path.{subst}
use traceql_syntax.Runtime.{Runtime}
use traceql_syntax.Operator.{
  Operator, op_equal, op_not_equal, op_regex, op_not_regex, op_in, op_not_in, op_regex_match_any,
  op_regex_match_none,
}
use traceql_syntax.Attribute.{Attribute}
use traceql_syntax.Expr.{Expr, binary, unary, unary_ref, static, attribute, references_span}
use traceql_syntax.Execute.{Span, attribute_value}
use traceql_syntax.Execute.Settled.{value}
use traceql_syntax.Build.{normalize_beside, is_trace_id}
use traceql_syntax.Rewrite.Comparisons.{IsScalar}
use traceql_syntax.Rewrite.Operands.{Operand}

-- No attribute of the span is an array.
abbrev pub IsScalarSpan : Span → Type 0
IsScalarSpan span = (a : Attribute) → IsScalar (attribute_value (span a))

abbrev pub is_leaf : Expr → Bool
is_leaf (static s) = true
is_leaf (attribute a) = true
is_leaf e = false

-- The operators of the comparisons that the rewriter joins.
abbrev pub is_joinable : Operator → Bool
is_joinable op_equal = true
is_joinable op_not_equal = true
is_joinable op_regex = true
is_joinable op_not_regex = true
is_joinable op_in = true
is_joinable op_not_in = true
is_joinable op_regex_match_any = true
is_joinable op_regex_match_none = true
is_joinable _ = false

-- A comparison of an attribute and a static has the attribute on the left, and a static that suits
-- the operator.
abbrev pub ComparisonOk : Runtime → Operator → Expr → Expr → Type 0
ComparisonOk rt op (attribute a) (static s) = Operand rt op s
ComparisonOk rt op (static s) (attribute a) = is_joinable op ≡ false
ComparisonOk rt op _ _ = Unit

-- Every operation that is met references the span, its comparisons are in order, and its trace ids
-- have no leading zeros. What stands under a unary value is never met.
abbrev pub IsPlain : Runtime → Expr → Type 0
IsPlain rt (binary op l r c b) =
    IsPlain rt l
    × IsPlain rt r
    × ((references_span l || references_span r) ≡ true)
    × ComparisonOk rt op l r
    × (normalize_beside l r ≡ r)
    × (normalize_beside r l ≡ l)
IsPlain rt (unary_ref op e) = IsPlain rt e × (references_span e ≡ true)
IsPlain rt _ = Unit

pub record Keeps (rt : Runtime) (e e' : Expr) : Type 0 where
  pub plain : IsPlain rt e'
  pub meaning : (span : Span) → IsScalarSpan span → value rt e' span ≡ value rt e span
  pub references : references_span e' ≡ references_span e
  pub leaf : is_leaf e ≡ true → e' ≡ e
  pub inner : is_leaf e ≡ false → is_leaf e' ≡ false

module _ {rt : Runtime} where
  pub Keeps-refl : (e : Expr) → IsPlain rt e → Keeps rt e e
  Keeps-refl e h = record {
    plain = h;
    meaning = λ span s. refl;
    references = refl;
    leaf = λ l. refl;
    inner = λ l. l;
  }

  pub Keeps-trans : {e f g : Expr} → Keeps rt e f → Keeps rt f g → Keeps rt e g
  Keeps-trans h k = record {
    plain = k.plain;
    meaning = λ span s. k.meaning span s ∙ h.meaning span s;
    references = k.references ∙ h.references;
    leaf = λ l. k.leaf (ap is_leaf (h.leaf l) ∙ l) ∙ h.leaf l;
    inner = λ l. k.inner (h.inner l);
  }

normalize_inner : (l r : Expr) → is_leaf r ≡ false → normalize_beside l r ≡ r
unfolding normalize_beside
normalize_inner l (static s) h = absurd_test h
normalize_inner l (attribute a) h = refl
normalize_inner l _ h = refl

normalize_by_inner : (l r : Expr) → is_leaf l ≡ false → normalize_beside l r ≡ r
unfolding normalize_beside is_trace_id
normalize_by_inner (static s) r h = absurd_test h
normalize_by_inner (attribute a) r h = absurd_test h
normalize_by_inner (binary op l m c b) (static t) h = refl
normalize_by_inner (unary op e) (static t) h = refl
normalize_by_inner (unary_ref op e) (static t) h = refl
normalize_by_inner _ (attribute a) h = refl
normalize_by_inner _ _ h = refl

comparison_inner :
    (rt : Runtime) (op : Operator) (l r : Expr)
    → (is_leaf l ≡ false) ⊎ (is_leaf r ≡ false)
    → ComparisonOk rt op l r
comparison_inner rt op (attribute a) (static s) (inl h) = absurd_test h
comparison_inner rt op (attribute a) (static s) (inr h) = absurd_test h
comparison_inner rt op (static s) (attribute a) (inl h) = absurd_test h
comparison_inner rt op (static s) (attribute a) (inr h) = absurd_test h
comparison_inner rt op (attribute a) _ h = tt
comparison_inner rt op (static a) _ h = tt
comparison_inner rt op _ _ h = tt

module _ (rt : Runtime) (l r l' r' : Expr) (kl : Keeps rt l l') (kr : Keeps rt r r') where
  -- Operands that keep the meaning of the old ones need no normalization either.
  pub kept_normal : normalize_beside l r ≡ r → normalize_beside l' r' ≡ r'
  kept_normal h = elim (Bool-cases (is_leaf r)) [
    | inr inner_r ↦ normalize_inner l' r' (kr.inner inner_r)
    | inl leaf_r ↦ elim (Bool-cases (is_leaf l)) [
      | inr inner_l ↦ normalize_by_inner l' r' (kl.inner inner_l)
      | inl leaf_l ↦ rw (kl.leaf leaf_l, kr.leaf leaf_r) h
    ]
  ]

  -- And their comparison is in order.
  pub kept_comparison : (op : Operator) → ComparisonOk rt op l r → ComparisonOk rt op l' r'
  kept_comparison op h = elim (Bool-cases (is_leaf r)) [
    | inr inner_r ↦ comparison_inner rt op l' r' (inr (kr.inner inner_r))
    | inl leaf_r ↦ elim (Bool-cases (is_leaf l)) [
      | inr inner_l ↦ comparison_inner rt op l' r' (inl (kl.inner inner_l))
      | inl leaf_l ↦
          subst (λ x. ComparisonOk rt op x r') (sym (kl.leaf leaf_l))
            (subst (λ y. ComparisonOk rt op l y) (sym (kr.leaf leaf_r)) h)
    ]
  ]
