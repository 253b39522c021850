-- ===== src/Rewrite/Rules.antt =====
-- The four rules of the rewriter fit.
use traceql_syntax.Base.{true, [], ◌∷◌, any, false, ◌≡◌, refl, sym}
use traceql_syntax.Runtime.{Runtime}
use traceql_syntax.StaticType.{is_array}
use traceql_syntax.Operator.{
  Operator, op_equal, op_not_equal, op_regex, op_not_regex, op_in, op_not_in, op_regex_match_any,
  op_regex_match_none, op_eq,
}
use traceql_syntax.Static.{
  Static, static_int_array, static_float_array, static_string_array, static_boolean_array,
  static_string, type_of,
}
use traceql_syntax.Build.{normalize_trace_id_operand}
use traceql_syntax.Rewrite.{
  contains_op, or_to_in, and_to_not_in, or_to_match_any, and_to_match_none,
}
use traceql_syntax.Rewrite.Comparisons.{IsScalar}
use traceql_syntax.Rewrite.Operands.{Operand, IsFilled, ArePatterns}
use traceql_syntax.Rewrite.Reads.{
  Reads-or_to_in, Reads-and_to_not_in, Reads-or_to_match_any, Reads-and_to_match_none,
}
use traceql_syntax.Rewrite.Joins.{
  IsPresent, Patterns, append-IsFilled, append-Patterns, or_Combines, and_Combines, IsFit,
}

true≢false : true ≡ false → ⊥
true≢false h = cc

IsPresent-of_scalar : (s : Static) → IsScalar s → IsPresent s
unfolding is_array type_of
IsPresent-of_scalar (static_int_array ns) h = absurd (true≢false h)
IsPresent-of_scalar (static_float_array ns) h = absurd (true≢false h)
IsPresent-of_scalar (static_string_array ns) h = absurd (true≢false h)
IsPresent-of_scalar (static_boolean_array ns) h = absurd (true≢false h)
IsPresent-of_scalar _ h = tt

IsPresent-of_filled : (s : Static) → IsFilled s → IsPresent s
IsPresent-of_filled (static_int_array (n ∷ ns)) h = tt
IsPresent-of_filled (static_float_array (n ∷ ns)) h = tt
IsPresent-of_filled (static_string_array (n ∷ ns)) h = tt
IsPresent-of_filled (static_boolean_array (n ∷ ns)) h = tt
IsPresent-of_filled _ h = absurd h

filled_keeps : (u : Static) → IsFilled u → normalize_trace_id_operand u ≡ u
unfolding normalize_trace_id_operand
filled_keeps (static_string s) h = absurd h
filled_keeps _ h = refl

patterns_filled : (rt : Runtime) (u : Static) → ArePatterns rt u → normalize_trace_id_operand u ≡ u
unfolding normalize_trace_id_operand
patterns_filled rt (static_string s) h = absurd h
patterns_filled rt _ h = refl

Patterns-of_one : (rt : Runtime) (s : Static) → Operand rt op_regex s → Patterns rt s
Patterns-of_one rt (static_string p) h = h
Patterns-of_one rt _ h = absurd h

Patterns-of_many : (rt : Runtime) (s : Static) → ArePatterns rt s → Patterns rt s
Patterns-of_many rt (static_string_array (p ∷ ps)) h = h
Patterns-of_many rt _ h = absurd h

module _ (rt : Runtime) where
  IsPresent-in :
      (o : Operator) (s : Static)
      → contains_op (op_equal ∷ op_in ∷ []) o ≡ true
      → Operand rt o s
      → IsPresent s
  unfolding op_eq any
  IsPresent-in op_equal s m h = IsPresent-of_scalar s h
  IsPresent-in op_in s m h = IsPresent-of_filled s h
  IsPresent-in _ s m h = absurd (true≢false (sym m))

  IsPresent-not_in :
      (o : Operator) (s : Static)
      → contains_op (op_not_equal ∷ op_not_in ∷ []) o ≡ true
      → Operand rt o s
      → IsPresent s
  unfolding op_eq any
  IsPresent-not_in op_not_equal s m h = IsPresent-of_scalar s h
  IsPresent-not_in op_not_in s m h = IsPresent-of_filled s h
  IsPresent-not_in _ s m h = absurd (true≢false (sym m))

  Patterns-any :
      (o : Operator) (s : Static)
      → contains_op (op_regex ∷ op_regex_match_any ∷ []) o ≡ true
      → Operand rt o s
      → Patterns rt s
  unfolding op_eq any
  Patterns-any op_regex s m h = Patterns-of_one rt s h
  Patterns-any op_regex_match_any s m h = Patterns-of_many rt s h
  Patterns-any _ s m h = absurd (true≢false (sym m))

  Patterns-none :
      (o : Operator) (s : Static)
      → contains_op (op_not_regex ∷ op_regex_match_none ∷ []) o ≡ true
      → Operand rt o s
      → Patterns rt s
  unfolding op_eq any
  Patterns-none op_not_regex s m h = Patterns-of_one rt s h
  Patterns-none op_regex_match_none s m h = Patterns-of_many rt s h
  Patterns-none _ s m h = absurd (true≢false (sym m))

  pub or_to_in-IsFit : IsFit rt or_to_in
  unfolding op_eq any
  or_to_in-IsFit = record {
    reads = Reads-or_to_in rt;
    combines = or_Combines rt;
    member = refl;
    fills = λ o p s t m k h h'. append-IsFilled s t (IsPresent-in o s m h);
    keeps = filled_keeps;
  }

  pub and_to_not_in-IsFit : IsFit rt and_to_not_in
  unfolding op_eq any
  and_to_not_in-IsFit = record {
    reads = Reads-and_to_not_in rt;
    combines = and_Combines rt;
    member = refl;
    fills = λ o p s t m k h h'. append-IsFilled s t (IsPresent-not_in o s m h);
    keeps = filled_keeps;
  }

  pub or_to_match_any-IsFit : IsFit rt or_to_match_any
  unfolding op_eq any
  or_to_match_any-IsFit = record {
    reads = Reads-or_to_match_any rt;
    combines = or_Combines rt;
    member = refl;
    fills =
        λ o p s t m k h h'. append-Patterns rt s t (Patterns-any o s m h) (Patterns-any p t k h');
    keeps = patterns_filled rt;
  }

  pub and_to_match_none-IsFit : IsFit rt and_to_match_none
  unfolding op_eq any
  and_to_match_none-IsFit = record {
    reads = Reads-and_to_match_none rt;
    combines = and_Combines rt;
    member = refl;
    fills =
        λ o p s t m k h h'. append-Patterns rt s t (Patterns-none o s m h) (Patterns-none p t k h');
    keeps = patterns_filled rt;
  }
