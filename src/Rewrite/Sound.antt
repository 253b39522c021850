-- ===== src/Rewrite/Sound.antt =====
-- Rewriting keeps the meaning of an expression: first one rule at one node, then the whole pass.
use mathlib.Core.Path.{subst}
use traceql_syntax.Base.{
  Bool, true, false, ◌&&◌, ◌||◌, List, [], ◌∷◌, ◌++◌, Option, none, some, ok, ◌≡◌, refl, sym, ap,
  ◌∙◌, inl, inr, Bool-cases, absurd_test, arith, if◌then◌else◌,
}
use traceql_syntax.Runtime.{Runtime}
use traceql_syntax.Operator.{Operator, op_eq}
use traceql_syntax.Operator.Equality.{op_eq_sound}
use traceql_syntax.Static.{Static, static_bool, elements}
use traceql_syntax.Static.Append.{append}
use traceql_syntax.Attribute.{Attribute, attribute_eq}
use traceql_syntax.Attribute.Equality.{attribute_eq_sound}
use traceql_syntax.Regexp.{Regexp}
use traceql_syntax.Optimizer.{BranchOptimizer}
use traceql_syntax.Expr.{Expr, binary, unary, unary_ref, static, attribute, references_span}
use traceql_syntax.Execute.{Span, attribute_value}
use traceql_syntax.Execute.Settled.{value, operation_value}
use traceql_syntax.Build.{new_binary_operation, normalize_beside, is_trace_id, optimizer_for}
use traceql_syntax.Rewrite.{
  Rule, contains_op, get_operands_from_binary_operation, array_node, join, allowed,
  array_equivalent, counted, rewrite_binary_operations_to_array_equivalent,
}
use traceql_syntax.Rewrite.Operands.{Operand}
use traceql_syntax.Execute.Elements.{test}
use traceql_syntax.Rewrite.Reads.{quantified}
use traceql_syntax.Rewrite.Joins.{Holds, append-elements, IsFit}
use traceql_syntax.Rewrite.Plain.{
  IsScalarSpan, is_joinable, IsPlain, Keeps, Keeps-refl, kept_normal, kept_comparison,
}

and_true : (a b : Bool) → (a && b) ≡ true → (a ≡ true) × (b ≡ true)
and_true a b h = ground arith

module _ (rt : Runtime) (op : Operator) (l r l' r' : Expr) where
  -- A node over operands that keep meanings is made with no change, and keeps the meaning.
  pub new_node-Keeps :
      (c : List Regexp) (b : BranchOptimizer)
      → Keeps rt l l'
      → Keeps rt r r'
      → IsPlain rt (binary op l r c b)
      → Keeps rt (binary op l r c b) (new_binary_operation rt op l' r')
  unfolding new_binary_operation value references_span
  new_node-Keeps c b kl kr p =
      let refs = p.2 in
      let m1 : normalize_beside l' r' ≡ r' = kept_normal rt l r l' r' kl kr p.4 in
      let m2 : normalize_beside r' l' ≡ l' = kept_normal rt r l r' l' kr kl p.5 in
      let refs' : (references_span l' || references_span r') ≡ true =
        rw (kl.references, kr.references) refs in
      let made : new_binary_operation rt op l' r' ≡ binary op l' r' [] (optimizer_for op) =
        rw (m1, m2, refs') refl in
      subst (Keeps rt (binary op l r c b)) (sym made) (record {
        plain = (kl.plain, kr.plain, refs', kept_comparison rt l r l' r' kl kr op p.3, m1, m2);
        meaning = λ span s. rw (kl.meaning span s, kr.meaning span s) refl;
        references = refs' ∙ sym refs;
        leaf = λ h. absurd_test (sym h);
        inner = λ h. refl;
      })

Holds-none {ℓ} : {A : Type ℓ} (P : A → Type 0) (b : Bool) → Holds P (if b then none else none)
Holds-none P true = tt
Holds-none P false = tt

if_same {ℓ} : {A : Type ℓ} {x y : A} (b : Bool) → x ≡ y → (if b then x else y) ≡ y
if_same true h = h
if_same false h = refl

-- A comparison with an operator of the rule, seen through its attribute and static.
abbrev Says : Runtime → Rule → Expr → Attribute × Static → Type 0
Says rt rule l (a, s) =
    (op : Operator) × (contains_op (rule.scalar ∷ rule.array ∷ []) op ≡ true)
    × Operand rt op s
    × ((span : Span) → value rt l span ≡ operation_value rt op (attribute_value (span a)) (ok s))

module _ (rt : Runtime) (rule : Rule)
    (joins : (op : Operator)
      → contains_op (rule.scalar ∷ rule.array ∷ []) op ≡ true
      → is_joinable op ≡ true) where
  -- An array operation beside an attribute is made with no change.
  array_node_made :
      (fit : IsFit rt rule) (a : Attribute) (u : Static)
      → Operand rt rule.array u
      → new_binary_operation rt rule.array (attribute a) (static u)
        ≡ binary rule.array (attribute a) (static u) [] (optimizer_for rule.array)
  unfolding new_binary_operation normalize_beside references_span
  array_node_made fit a u o =
      ap (λ v. binary rule.array (attribute a) (static v) [] (optimizer_for rule.array))
        (if_same (is_trace_id (attribute a)) (fit.keeps u o))

  leaf-Says :
      (l : Expr)
      → IsPlain rt l
      → Holds (Says rt rule l) (get_operands_from_binary_operation l rule.scalar rule.array)
  unfolding get_operands_from_binary_operation value
  leaf-Says (binary op (attribute a) (static s) c b) p =
      elim (Bool-cases (contains_op (rule.scalar ∷ rule.array ∷ []) op)) [
        | inl m ↦ rw m (op, m, p.3, λ span. refl)
        | inr m ↦ rw m tt
      ]
  leaf-Says (binary op (static s) (attribute a) c b) p =
      elim (Bool-cases (contains_op (rule.scalar ∷ rule.array ∷ []) op)) [
        | inl m ↦ absurd_test (sym (joins op m) ∙ p.3)
        | inr m ↦ rw m tt
      ]
  leaf-Says (binary op (attribute a) _ c b) p = Holds-none _ _
  leaf-Says (binary op (static s) _ c b) p = Holds-none _ _
  leaf-Says (binary op _ _ c b) p = Holds-none _ _
  leaf-Says _ p = tt

  module _ (fit : IsFit rt rule) (l r : Expr) (c : List Regexp) (b : BranchOptimizer)
      (p : IsPlain rt (binary rule.outer l r c b)) where
    joined_meaning :
        (a : Attribute) (s t u : Static) (bo : BranchOptimizer)
        → Says rt rule l (a, s)
        → Says rt rule r (a, t)
        → elements u ≡ elements s ++ elements t
        → Operand rt rule.array u
        → (span : Span) → IsScalarSpan span
        → value rt (binary rule.array (attribute a) (static u) [] bo) span
          ≡ value rt (binary rule.outer l r c b) span
    unfolding value
    joined_meaning a s t u bo sl sr e o span sc =
        let x = attribute_value (span a) in
        let q = test rt rule.scalar x in
        let left = sl.3 span ∙ fit.reads sl.0 x s sl.1 sl.2 (sc a) in
        let right = sr.3 span ∙ fit.reads sr.0 x t sr.1 sr.2 (sc a) in
        rw (left, right)
          (fit.reads rule.array x u fit.member o (sc a)
            ∙ (ap (λ es. ok (static_bool (quantified rule.outer q es))) e
                ∙ sym (fit.combines q (elements s) (elements t))))

    -- The array operation for the joined static keeps the meaning of the two comparisons.
    array_node-Keeps :
        (a : Attribute) (s t : Static)
        → Says rt rule l (a, s)
        → Says rt rule r (a, t)
        → (joined : Option Static) → Holds (λ u. elements u ≡ elements s ++ elements t) joined
        → Holds (Operand rt rule.array) joined
        → Holds (Keeps rt (binary rule.outer l r c b)) (array_node rt rule a joined)
    unfolding array_node references_span normalize_beside
    array_node-Keeps a s t sl sr none e o = tt
    array_node-Keeps a s t sl sr (some u) e o =
        subst (Keeps rt (binary rule.outer l r c b)) (sym (array_node_made fit a u o)) (record {
          plain = (
            tt,
            tt,
            refl,
            o,
            ap static (if_same (is_trace_id (attribute a)) (fit.keeps u o)),
            refl,
          );
          meaning = λ span sc. joined_meaning a s t u (optimizer_for rule.array) sl sr e o span sc;
          references = sym p.2;
          leaf = λ h. absurd_test (sym h);
          inner = λ h. refl;
        })

    join-Keeps :
        (o o' : Option (Attribute × Static))
        → Holds (Says rt rule l) o
        → Holds (Says rt rule r) o'
        → Holds (Keeps rt (binary rule.outer l r c b)) (join rt rule o o')
    unfolding join
    join-Keeps (some (a, s)) (some (a', t)) sl sr =
        elim (Bool-cases
          (attribute_eq a a' && (allowed rule.restrict_types s && allowed rule.restrict_types t))) [
            | inl m ↦
                let same = attribute_eq_sound a a' (and_true _ _ m).0 in
                rw m (
                  array_node-Keeps a s t sl (subst (λ x. Says rt rule r (x, t)) (sym same) sr)
                    (append s t) (append-elements s t)
                    (fit.fills sl.0 sr.0 s t sl.1 sr.1 sl.2 sr.2))
            | inr m ↦ rw m tt
          ]
    join-Keeps none o' sl sr = tt
    join-Keeps (some (a, s)) none sl sr = tt

  counted-Keeps :
      (e : Expr) (o : Option Expr)
      → IsPlain rt e
      → Holds (Keeps rt e) o
      → Keeps rt e (counted rt e o).0
  unfolding counted
  counted-Keeps e none p h = Keeps-refl e p
  counted-Keeps e (some e') p h = h

  -- One rule, at one node.
  pub rule-Keeps :
      (fit : IsFit rt rule) (e : Expr)
      → IsPlain rt e
      → Keeps rt e (rewrite_binary_operations_to_array_equivalent rt rule e).0
  unfolding rewrite_binary_operations_to_array_equivalent array_equivalent
  rule-Keeps fit (binary op l r c b) p = elim (Bool-cases (op_eq op rule.outer)) [
    | inl m ↦
        let same = op_eq_sound op rule.outer m in
        rw m (
          counted-Keeps (binary op l r c b) _ p (
            subst (λ o. Holds (Keeps rt (binary o l r c b)) (array_equivalent rt rule l r))
              (sym same)
              (join-Keeps fit l r c b (subst (λ o. IsPlain rt (binary o l r c b)) same p) _ _
                (leaf-Says l p.0) (leaf-Says r p.1))))
    | inr m ↦ rw m (Keeps-refl (binary op l r c b) p)
  ]
  rule-Keeps fit (unary op e) p = Keeps-refl (unary op e) p
  rule-Keeps fit (unary_ref op e) p = Keeps-refl (unary_ref op e) p
  rule-Keeps fit (static s) p = Keeps-refl (static s) p
  rule-Keeps fit (attribute a) p = Keeps-refl (attribute a) p
