-- ===== src/Rewrite/Limits.antt =====
-- Where the rewriter does less than its comments say, or keeps less than the meaning.
use traceql_syntax.Base.{
  Bool, true, false, List, [], ◌∷◌, any, Text, list_eq, list_eq_refl, ok, err, some, ◌≡◌, refl,
  arith, ◌∙◌, ap, ap₂, map, ◌>>=◌, All, ◌||◌,
}
use traceql_syntax.Runtime.{Runtime}
use traceql_syntax.Operator.{Operator, op_or, op_equal, op_regex, op_regex_match_any, op_in}
use traceql_syntax.Static.{elements, static_string, static_bool, static_string_array}
use traceql_syntax.Attribute.{new_attribute, attribute_eq}
use traceql_syntax.Expr.{Expr, binary, unary, static, attribute, references_span}
use traceql_syntax.Execute.{Span, short_circuit}
use traceql_syntax.Execute.Values.{two_arrays, bin_op_execute_scalar}
use traceql_syntax.Execute.Settled.{value, operation_value}
use traceql_syntax.Build.{optimizer_for, new_binary_operation, new_unary_operation}
use traceql_syntax.Validate.{invalid_regex, validate}
use traceql_syntax.Optimizer.{idle}
use traceql_syntax.Execute.Arrays.{execute_values}
use traceql_syntax.Execute.Elements.{test, Tests, loop_any}
use traceql_syntax.Rewrite.Comparisons.{All-map}
use traceql_syntax.Rewrite.{rewrite_field_expression}

-- What a constructed `!` or `-` stands over is never rewritten: an expression that references the
-- span is left as it is under it, whatever the operator, and no rewrite is counted.
pub unary_is_left :
    (rt : Runtime) (op : Operator) (e : Expr)
    → references_span e ≡ true
    → rewrite_field_expression rt (new_unary_operation rt op e) ≡ (unary op e, 0)
unfolding rewrite_field_expression new_unary_operation references_span
unary_is_left rt op e h = rw h refl

module _ (rt : Runtime) (n p q : Text) where
  -- `.n op "p" || .n op "q"`
  abbrev either : Operator → Expr
  either op =
      new_binary_operation rt op_or
        (new_binary_operation rt op (attribute (new_attribute n)) (static (static_string p)))
        (new_binary_operation rt op (attribute (new_attribute n)) (static (static_string q)))

  abbrev both : Operator → Expr
  both op =
      binary op (attribute (new_attribute n)) (static (static_string_array (p ∷ q ∷ []))) [] idle

  regex_to_match_any : (rewrite_field_expression rt (either op_regex)).0 ≡ both op_regex_match_any
  unfolding rewrite_field_expression new_attribute new_binary_operation attribute_eq
  regex_to_match_any = rw (list_eq_refl n) refl

  equal_to_in : (rewrite_field_expression rt (either op_equal)).0 ≡ both op_in
  unfolding rewrite_field_expression new_attribute new_binary_operation attribute_eq
  equal_to_in = rw (list_eq_refl n) refl

  both_valid : validate rt (both op_regex_match_any) ≡ ok tt
  unfolding validate new_attribute
  both_valid = refl

  -- Two regexes on one attribute, the first with a pattern that does not compile, are refused by the
  -- validation, but what the rewriter joins them into passes it.
  pub invalid_regex_hidden :
      rt.compiles p ≡ false
      → (validate rt (either op_regex) ≡ err invalid_regex)
        × (validate rt (rewrite_field_expression rt (either op_regex)).0 ≡ ok tt)
  unfolding validate new_attribute new_binary_operation
  invalid_regex_hidden h = (rw h refl, rw regex_to_match_any both_valid)

  texts_test :
      (t : Text) (ts : List Text) → All (Tests rt op_equal (static_string t)) (map static_string ts)
  unfolding test bin_op_execute_scalar
  texts_test t ts =
      All-map (Tests rt op_equal (static_string t)) static_string ts (λ u. (refl, omega arith))

  any_text :
      (t : Text) (ts : List Text)
      → any (test rt op_equal (static_string t)) (map static_string ts) ≡ any (list_eq t) ts
  unfolding any test bin_op_execute_scalar
  any_text t [] = refl
  any_text t (u ∷ us) = rw (any_text t us) refl

  equals_some :
      (t : Text) (ts : List Text)
      → (execute_values rt op_equal (static_string_array ts) (static_string t) []).0
        ≡ ok (static_bool (any (list_eq t) ts))
  unfolding execute_values elements
  equals_some t ts =
      loop_any rt op_equal (static_string t) (map static_string ts) [] 0 (omega arith)
        (texts_test t ts)
      ∙ ap (λ b. ok (static_bool b)) (any_text t ts)

  either_made :
      either op_equal
      ≡ binary op_or
          (binary op_equal (attribute (new_attribute n)) (static (static_string p)) [] idle)
          (binary op_equal (attribute (new_attribute n)) (static (static_string q)) [] idle)
          []
          (optimizer_for op_or)
  unfolding new_binary_operation new_attribute
  either_made = refl

  short_of :
      (x y : Bool)
      → operation_value rt op_or (static_bool x) (ok (static_bool y)) ≡ ok (static_bool (x || y))
  unfolding execute_values short_circuit
  short_of true y = refl
  short_of false y = refl

  equals_attribute :
      (t : Text) (ts : List Text) (span : Span)
      → span (new_attribute n) ≡ some (static_string_array ts)
      → value rt
          (binary op_equal (attribute (new_attribute n)) (static (static_string t)) [] idle)
          span
        ≡ ok (static_bool (any (list_eq t) ts))
  unfolding value
  equals_attribute t ts span h = rw h (equals_some t ts)

  either_value :
      (ts : List Text) (span : Span)
      → span (new_attribute n) ≡ some (static_string_array ts)
      → value rt
          (binary op_or
            (binary op_equal (attribute (new_attribute n)) (static (static_string p)) [] idle)
            (binary op_equal (attribute (new_attribute n)) (static (static_string q)) [] idle)
            []
            (optimizer_for op_or))
          span
        ≡ ok (static_bool (any (list_eq p) ts || any (list_eq q) ts))
  unfolding value
  either_value ts span h =
      ap₂ (λ x y. x >>= λ lhs. operation_value rt op_or lhs y) (equals_attribute p ts span h)
        (equals_attribute q ts span h)
      ∙ short_of (any (list_eq p) ts) (any (list_eq q) ts)

  -- On a span where the attribute is an array of texts, `.n = "p" || .n = "q"` says whether one of the
  -- two is in the array, while what the rewriter makes of it fails.
  pub array_attribute :
      (ts : List Text) (span : Span)
      → span (new_attribute n) ≡ some (static_string_array ts)
      → (value rt (either op_equal) span
          ≡ ok (static_bool (any (list_eq p) ts || any (list_eq q) ts)))
        × (value rt (rewrite_field_expression rt (either op_equal)).0 span ≡ err two_arrays)
  unfolding value new_binary_operation
  array_attribute ts span h =
      (ap (λ e. value rt e span) either_made ∙ either_value ts span h, rw (equal_to_in, h) refl)
