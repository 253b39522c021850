-- ===== src/Tests.antt =====
-- Runs of the definitions on small inputs, and the theorems at inputs that meet their hypotheses.
pub mod Ranges
pub mod Pipelines
pub mod Counters
pub mod Scopes
pub mod Metrics
pub mod Traces
pub mod Groups
pub mod Types
pub mod Repeats
pub mod Conditions
pub mod Collectors
use traceql_syntax.Base.{
  ℕ, true, false, not, [], List, ◌∷◌, none, some, Text, codes, list_eq, ltb, leb, ◌==◌, ◌+◌, ◌*◌,
  ◌-◌, ◌/◌, ◌≡◌, refl, ok, err, if◌then◌else◌, ◌||◌, ◌<◌, arith, any, ◌&&◌, inr, absurd_test, sym,
  ◌≤◌, get_elem?, All,
}
use traceql_syntax.Runtime.{Runtime}
use traceql_syntax.StaticType.{
  is_array, type_int, type_int_array, matches_directly, is_matching_operand,
  is_matching_array_element, match_element,
}
use traceql_syntax.Operator.{op_or, op_and, op_equal, op_in, op_power, op_regex, op_none, op_not}
use traceql_syntax.Static.{
  type_of, static_int, static_string, static_bool, static_string_array, static_int_array,
}
use traceql_syntax.Attribute.{Attribute, new_attribute, attribute_eq}
use traceql_syntax.Regexp.{Regexp, new_regexp, matched, match_string, reset}
use traceql_syntax.Regexp.Memo.{IsSound, match_string-IsSound, new_regexp-IsSound}
use traceql_syntax.Optimizer.{
  BranchOptimizer, new_branch_predictor, idle, optimal_branch, left_branch, right_branch,
}
use traceql_syntax.Optimizer.Choice.{optimal-charge}
use traceql_syntax.Expr.{Expr, binary, unary, static, attribute, references_span}
use traceql_syntax.Execute.{Span, execute, charge}
use traceql_syntax.Execute.Values.{unexpected_regexps, two_arrays}
use traceql_syntax.Execute.Arrays.{execute_values}
use traceql_syntax.Execute.Settled.{value}
use traceql_syntax.Execute.Transparent.{execute-eq-value}
use traceql_syntax.Execute.Recording.{missing_operand, power_exchanged, regex_after_array}
use traceql_syntax.Conditions.{Request, extract_conditions}
use traceql_syntax.Conditions.Fetched.{Agree, extract_fetches_all}
use traceql_syntax.Conditions.Hints.{int_test, int_condition, attribute_or_hint, negation_hint}
use traceql_syntax.Collector.{
  DistinctString, new_distinct_string_with_diff, contains, collect, strings, diff,
}
use traceql_syntax.Collector.Limits.{IsWell, Collected, collect-Collected}
use traceql_syntax.Collector.Diffs.{collect_all, diff-collect_all}
use traceql_syntax.Attribute.{
  scope_unknown, scoped_intrinsic_span_name, scope_to_string, attribute_scope_from_string,
  intrinsic_to_string, intrinsic_from_string,
}
use traceql_syntax.Attribute.Names.{named, intrinsic_from_string-to_string}
use traceql_syntax.Buckets.{LimitedBucketSet, new_bucket_set, add_and_test}
use traceql_syntax.Buckets.Counts as Counts
use traceql_syntax.Buckets.Counts.{Added, add_and_test-Added, new_bucket_set-IsWell}
use traceql_syntax.Validate.{validate, invalid_regex}
use traceql_syntax.Build.{normalize_beside, new_binary_operation, new_unary_operation, no_clock}
use traceql_syntax.Rewrite.{rewrite_field_expression}
use traceql_syntax.Rewrite.Plain.{IsScalarSpan, IsPlain}
use traceql_syntax.Rewrite.Pass.{rewrite_sound}
use traceql_syntax.Rewrite.Limits.{unary_is_left, invalid_regex_hidden, array_attribute}

-- Whole numbers in place of floats, and equality in place of patterns; "[" does not compile.
abbrev toy : Runtime
toy = record {
  f_add = λ a b. a + b;
  f_sub = λ a b. a - b;
  f_mul = λ a b. a * b;
  f_div = λ a b. a / b;
  f_mod = λ a b. a - b;
  f_pow = λ a b. if b == 2 then a * a else if b == 3 then a * a * a else a;
  f_eq = λ a b. a == b;
  f_lt = λ a b. ltb a b;
  f_le = λ a b. leb a b;
  nan = 0;
  minus_one = 0;
  of_int = λ a. a;
  of_uint = λ a. a;
  to_int = λ a. a;
  compiles = λ p. if list_eq p (codes "[") then false else true;
  fast_compiles = λ p. if list_eq p (codes "[") then false else true;
  regex_match = λ p s. list_eq p s;
}

abbrev dot_a : Expr
dot_a = attribute (new_attribute (codes "a"))

abbrev is_1_or_2 : Expr
is_1_or_2 =
    new_binary_operation toy op_or (new_binary_operation toy op_equal dot_a (static (static_int 1)))
      (new_binary_operation toy op_equal dot_a (static (static_int 2)))

rewrites_to_in :
    rewrite_field_expression toy is_1_or_2
    ≡ (binary op_in dot_a (static (static_int_array (1 ∷ 2 ∷ []))) [] idle, 1)
unfolding rewrite_field_expression new_attribute
rewrites_to_in = refl

power_swapped :
    new_binary_operation toy op_power (static (static_int 2)) (static (static_int 3))
    ≡ static (static_int 9)
unfolding new_binary_operation
power_swapped = refl

-- Two comparisons of one attribute, beside a regex on another.
abbrev text_a : Text
text_a = codes "a"

abbrev text_b : Text
text_b = codes "b"

abbrev attr_a : Attribute
attr_a = new_attribute text_a

abbrev attr_b : Attribute
attr_b = new_attribute text_b

abbrev a_is : ℕ → Expr
a_is n = binary op_equal (attribute attr_a) (static (static_int n)) [] idle

abbrev a_is_1_or_2 : Expr
a_is_1_or_2 = binary op_or (a_is 1) (a_is 2) [] idle

abbrev b_matches : Expr
b_matches = binary op_regex (attribute attr_b) (static (static_string text_b)) [] idle

abbrev mixed : Expr
mixed = binary op_and a_is_1_or_2 b_matches [] (new_branch_predictor 2 1000)

abbrev span_1 : Span
span_1 a = if attribute_eq a attr_a then some (static_int 1) else some (static_string text_b)

mixed-IsPlain : IsPlain toy mixed
unfolding new_attribute references_span normalize_beside list_eq type_of is_array
mixed-IsPlain = (
  ((tt, tt, refl, refl, refl, refl), (tt, tt, refl, refl, refl, refl), refl, tt, refl, refl),
  (tt, tt, refl, refl, refl, refl),
  refl,
  tt,
  refl,
  refl,
)

rewrite_sound_example :
    ((span : Span)
      → IsScalarSpan span
      → value toy (rewrite_field_expression toy mixed).0 span ≡ value toy mixed span)
    × IsPlain toy (rewrite_field_expression toy mixed).0
    × (references_span (rewrite_field_expression toy mixed).0 ≡ references_span mixed)
rewrite_sound_example = rewrite_sound toy mixed mixed-IsPlain

execute-eq-value_example : (execute toy mixed span_1 no_clock).result ≡ value toy mixed span_1
unfolding new_branch_predictor value new_attribute attribute_eq
execute-eq-value_example = execute-eq-value toy mixed span_1 no_clock (
  (
    (tt, tt, refl, λ h. absurd_test (sym h)),
    (tt, tt, refl, λ h. absurd_test (sym h)),
    refl,
    λ h. (tt, tt),
  ),
  (tt, tt, refl, λ h. absurd_test (sym h)),
  refl,
  λ h. (tt, tt),
)

missing_operand_example :
    (execute toy
      (binary op_or (attribute attr_a) (attribute attr_b) [] (new_branch_predictor 2 1000))
      (λ a. if attribute_eq a attr_a then some (static_bool true) else none)
      no_clock).result
    ≡ ok (static_bool (not (new_branch_predictor 2 1000).recording))
unfolding attribute_eq new_attribute
missing_operand_example =
    missing_operand toy attr_a attr_b (new_branch_predictor 2 1000)
      (λ a. if attribute_eq a attr_a then some (static_bool true) else none) no_clock refl refl

regex_after_array_example :
    (execute toy
      (execute toy
        (binary op_regex (attribute attr_a) (static (static_string text_a)) [] idle)
        (λ a. some (static_string_array (text_b ∷ text_a ∷ [])))
        no_clock).expr
      (λ a. some (static_string text_a))
      no_clock).result
    ≡ err unexpected_regexps
unfolding list_eq
regex_after_array_example =
    regex_after_array toy attr_a text_a text_b text_a text_a no_clock no_clock
      (λ a. some (static_string_array (text_b ∷ text_a ∷ []))) (λ a. some (static_string text_a))
      refl refl refl refl

abbrev remembering : Regexp
remembering = record {
  matchers = text_a ∷ [];
  matches = some ((text_b, false) ∷ []);
  should_match = true;
}

match_string-IsSound_example :
    ((match_string toy remembering text_b).1 ≡ matched toy remembering text_b)
    × IsSound toy (match_string toy remembering text_b).0
unfolding matched list_eq
match_string-IsSound_example = match_string-IsSound toy remembering text_b ((refl, tt), omega arith)

abbrev costs_5_7 : BranchOptimizer
costs_5_7 = record {
  last = 5 ∷ 7 ∷ [];
  totals = 0 ∷ 0 ∷ [];
  recording = true;
  samples_remaining = 9;
}

charge_of_5_7 :
    (0 < 7 → optimal_branch (charge op_and false true costs_5_7).totals ≡ left_branch)
    × (0 < 5 → optimal_branch (charge op_or true false costs_5_7).totals ≡ right_branch)
charge_of_5_7 = optimal-charge costs_5_7 5 7 refl refl

abbrev text_open : Text
text_open = codes "["

abbrev a_is_text : Text → Expr
a_is_text t = new_binary_operation toy op_equal (attribute attr_a) (static (static_string t))

abbrev a_matches : Text → Expr
a_matches t = new_binary_operation toy op_regex (attribute attr_a) (static (static_string t))

invalid_regex_hidden_example :
    (validate toy (new_binary_operation toy op_or (a_matches text_open) (a_matches text_b))
      ≡ err invalid_regex)
    × (validate toy
          (rewrite_field_expression toy
            (new_binary_operation toy op_or (a_matches text_open) (a_matches text_b))).0
        ≡ ok tt)
unfolding list_eq
invalid_regex_hidden_example = invalid_regex_hidden toy text_a text_open text_b refl

array_attribute_example :
    (value toy
        (new_binary_operation toy op_or (a_is_text text_a) (a_is_text text_b))
        (λ a. some (static_string_array (text_b ∷ [])))
      ≡ ok (static_bool (any (list_eq text_a) (text_b ∷ []) || any (list_eq text_b) (text_b ∷ []))))
    × (value toy
          (rewrite_field_expression toy
            (new_binary_operation toy op_or (a_is_text text_a) (a_is_text text_b))).0
          (λ a. some (static_string_array (text_b ∷ [])))
        ≡ err two_arrays)
array_attribute_example =
    array_attribute toy text_a text_a text_b (text_b ∷ [])
      (λ a. some (static_string_array (text_b ∷ []))) refl

-- Two buckets of 5 ms each, for 4 exemplars.
abbrev ten_millis : LimitedBucketSet
ten_millis = new_bucket_set 4 0 10000000

ten_millis-IsWell : Counts.IsWell ten_millis
ten_millis-IsWell = new_bucket_set-IsWell 4 0 10000000 (omega arith)

add_and_test-Added_example : Added ten_millis ten_millis-IsWell 7 (add_and_test ten_millis 7)
add_and_test-Added_example = add_and_test-Added ten_millis 7 ten_millis-IsWell

counted_once :
    add_and_test ten_millis 7 ≡ some (record ten_millis { buckets = 0 ∷ 1 ∷ 1 ∷ [] }, false)
unfolding add_and_test new_bucket_set
counted_once = refl

intrinsic_from_string-to_string_example :
    (intrinsic_from_string (intrinsic_to_string (λ n. codes "7") scoped_intrinsic_span_name)
      ≡ named scoped_intrinsic_span_name)
    × (attribute_scope_from_string (scope_to_string (λ n. codes "7") scope_unknown) ≡ scope_unknown)
intrinsic_from_string-to_string_example =
    intrinsic_from_string-to_string (λ n. codes "7") scoped_intrinsic_span_name scope_unknown
