-- ===== src/Execute/Recording.antt =====
-- Where the optimizer and the compiled patterns do change a result.
use traceql_syntax.Base.{
  ℕ, true, false, not, [], ◌∷◌, none, some, Text, ok, err, ◌≡◌, refl, arith, Bool-cases, inl, inr,
}
use traceql_syntax.Runtime.{Runtime}
use traceql_syntax.Operator.{op_or, op_regex, op_power}
use traceql_syntax.Static.{
  static_int, static_float, static_bool, static_string, static_string_array,
}
use traceql_syntax.Attribute.{Attribute}
use traceql_syntax.Optimizer.{BranchOptimizer, Clock, idle}
use traceql_syntax.Expr.{binary, static, attribute}
use traceql_syntax.Execute.{Span, short_circuit, execute}
use traceql_syntax.Execute.Values.{unexpected_regexps}
use traceql_syntax.Execute.Arrays.{execute_values}

-- For an OR of two attributes, the left one true and the right one missing from the span, the result
-- is false while the optimizer records, and true once it has settled.
pub missing_operand :
    (rt : Runtime) (a b : Attribute) (opt : BranchOptimizer) (span : Span) (k : Clock)
    → span a ≡ some (static_bool true)
    → span b ≡ none
    → (execute rt (binary op_or (attribute a) (attribute b) [] opt) span k).result
      ≡ ok (static_bool (not opt.recording))
unfolding execute execute_values short_circuit
missing_operand rt a b opt span k ha hb = elim (Bool-cases opt.recording) [
  | inl on ↦ rw (ha, on, hb) refl
  | inr off ↦ rw (ha, off) refl
]

-- If the float power, with the operands exchanged, of the floats of two ints gives f, then the int
-- power gives the int of f.
pub power_exchanged :
    (rt : Runtime) (l r : ℕ) (f : ℕ)
    → (execute_values rt op_power (static_float (rt.of_int r)) (static_float (rt.of_int l)) []).0
      ≡ ok (static_float f)
    → (execute_values rt op_power (static_int l) (static_int r) []).0
      ≡ ok (static_int (rt.to_int f))
unfolding execute_values
power_exchanged rt l r f h = ground arith

module _ (rt : Runtime) (a : Attribute) (p t u s : Text) (k k' : Clock) (span span' : Span) where
  -- A regex on an attribute that is an array of two texts on one span, of which the first does not
  -- match, and a text on the next span: the second execution fails, since the first one keeps a
  -- pattern for each element.
  pub regex_after_array :
      rt.fast_compiles p ≡ true
      → rt.regex_match p t ≡ false
      → span a ≡ some (static_string_array (t ∷ u ∷ []))
      → span' a ≡ some (static_string s)
      → (execute rt
          (execute rt
            (binary op_regex (attribute a) (static (static_string p)) [] idle)
            span
            k).expr
          span'
          k').result
        ≡ err unexpected_regexps
  unfolding execute execute_values short_circuit
  regex_after_array c m ha hb = elim (Bool-cases (rt.regex_match p u)) [
    | inl yes' ↦ rw (ha, c, m, yes', hb) (rw c refl)
    | inr no' ↦ rw (ha, c, m, no', hb) (rw c refl)
  ]
