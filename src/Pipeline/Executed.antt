-- ===== src/Pipeline/Executed.antt =====
-- The filter with its executions does what it does with the settled values.
use traceql_syntax.Base.{
  List, [], ◌∷◌, ◌++◌, All, Result, ok, err, ◌>>=◌, ◌≡◌, refl, ap, ◌∙◌, false, if◌then◌else◌,
}
use mathlib.Core.Path.{subst}
use traceql_syntax.Runtime.{Runtime}
use traceql_syntax.Optimizer.{Clock}
use traceql_syntax.Expr.{Expr}
use traceql_syntax.Execute.{Span}
use traceql_syntax.Execute.Arrays.{is_match}
use traceql_syntax.Execute.Settled.{value}
use traceql_syntax.Execute.Steady.{IsSteady, Stays, IsSteady-IsFresh, Stays-refl}
use traceql_syntax.Execute.Repeated.{execute-Stays}
use traceql_syntax.Execute.Transparent.{execute-eq-value}
use traceql_syntax.Pipeline.Spanset.{Spanset, EvaluateErr}
use traceql_syntax.Pipeline.Filter.{
  FilterState, matching_spans, fork, filter_spanset, filter_step, filter_loop, evaluate_filter,
}
use traceql_syntax.Pipeline.Evaluate.{lift, run, Environment}
use traceql_syntax.Pipeline.Executing.{
  Executed, next, execute_span, execute_spans, execute_step, execute_loop, execute_filter,
}

module _ (rt : Runtime) (P : Span → Type 0) {S : Type 0} (env : Environment S) (e0 : Expr) where
  -- A result as it is with the settled values, and an expression that has the same ones.
  abbrev Settles : {A : Type 0} → Result EvaluateErr A → Executed A → Type 0
  Settles r (res, e, k) = (res ≡ r) × Stays rt P e0 e

  next-Settles :
      {A B : Type 0} (r : Result EvaluateErr A) (x : Executed A) (g : A → Result EvaluateErr B)
      (f : A → Expr → Clock → Executed B)
      → Settles r x
      → ((a : A) (e : Expr) (k : Clock) → Stays rt P e0 e → Settles (g a) (f a e k))
      → Settles (r >>= g) (next x f)
  next-Settles r (ok a, e, k) g f (same, kept) h =
      subst (λ r'. Settles (r' >>= g) (f a e k)) same (h a e k kept)
  next-Settles r (err x, e, k) g f (same, kept) h = (ap (λ r'. r' >>= g) same, kept)

  execute_span-Settles :
      (e : Expr) (k : Clock) (s : S)
      → P (env.attribute_for s)
      → Stays rt P e0 e
      → Settles (run rt env e0 s) (execute_span rt env.attribute_for e k s)
  unfolding execute_span run
  execute_span-Settles e k s p (steady, same) =
      let span = env.attribute_for s in
      let (steady', same') = execute-Stays rt P e span k steady in
      (
        ap lift
            (execute-eq-value rt e span k (IsSteady-IsFresh rt P e span p steady) ∙ same span p),
        (steady', λ span' p'. same' span' p' ∙ same span' p'),
      )

  abbrev pub IsAmong : List S → Type 0
  IsAmong ss = All (λ s. P (env.attribute_for s)) ss

  execute_spans-Settles :
      (ss : List S) (e : Expr) (k : Clock)
      → IsAmong ss
      → Stays rt P e0 e
      → Settles (matching_spans (run rt env e0) ss) (execute_spans rt env.attribute_for ss e k)
  unfolding execute_spans matching_spans
  execute_spans-Settles [] e k ps kept = (refl, kept)
  execute_spans-Settles (s ∷ ss) e k (p, ps) kept =
      next-Settles (run rt env e0 s) (execute_span rt env.attribute_for e k s)
        (λ v. matching_spans (run rt env e0) ss >>= λ m. ok (if is_match v then s ∷ m else m))
        (λ v e' k'.
          next (execute_spans rt env.attribute_for ss e' k')
            (λ m e'' k''. (ok (if is_match v then s ∷ m else m), e'', k'')))
        (execute_span-Settles e k s p kept)
        (λ v e' k' kept'.
          next-Settles (matching_spans (run rt env e0) ss)
            (execute_spans rt env.attribute_for ss e' k')
            (λ m. ok (if is_match v then s ∷ m else m))
            (λ m e'' k''. (ok (if is_match v then s ∷ m else m), e'', k''))
            (execute_spans-Settles ss e' k' ps kept') (λ m e'' k'' kept''. (refl, kept'')))

  execute_step-Settles :
      (before : List (Spanset S)) (ss : Spanset S) (st : FilterState S) (e : Expr) (k : Clock)
      → IsAmong ss.spans
      → Stays rt P e0 e
      → Settles
          (filter_step (run rt env e0) before ss st)
          (execute_step rt env.attribute_for before ss st e k)
  unfolding execute_step filter_step
  execute_step-Settles before ss st e k ps kept = go ss.spans ps
    where
      go :
          (spans : List S)
          → IsAmong spans
          → Settles
              (elim spans [
                | [] ↦ ok (fork before st)
                | s ∷ more ↦ matching_spans (run rt env e0) (s ∷ more) >>= λ m.
                    ok (filter_spanset before ss st m)
              ])
              (elim spans [
                | [] ↦ (ok (fork before st), e, k)
                | s ∷ more ↦
                    next
                      (execute_spans rt env.attribute_for (s ∷ more) e k)
                      (λ m e' k'. (ok (filter_spanset before ss st m), e', k'))
              ])
      go [] ps = (refl, kept)
      go (s ∷ more) ps =
          next-Settles (matching_spans (run rt env e0) (s ∷ more))
            (execute_spans rt env.attribute_for (s ∷ more) e k)
            (λ m. ok (filter_spanset before ss st m))
            (λ m e' k'. (ok (filter_spanset before ss st m), e', k'))
            (execute_spans-Settles (s ∷ more) e k ps kept) (λ m e' k' kept'. (refl, kept'))

  execute_loop-Settles :
      (before rest : List (Spanset S)) (st : FilterState S) (e : Expr) (k : Clock)
      → All (λ ss. IsAmong ss.spans) rest
      → Stays rt P e0 e
      → Settles
          (filter_loop (run rt env e0) before rest st)
          (execute_loop rt env.attribute_for before rest st e k)
  unfolding execute_loop filter_loop
  execute_loop-Settles before [] st e k ps kept = (refl, kept)
  execute_loop-Settles before (ss ∷ rest) st e k (p, ps) kept =
      next-Settles (filter_step (run rt env e0) before ss st)
        (execute_step rt env.attribute_for before ss st e k)
        (λ st'. filter_loop (run rt env e0) (before ++ (ss ∷ [])) rest st')
        (λ st' e' k'. execute_loop rt env.attribute_for (before ++ (ss ∷ [])) rest st' e' k')
        (execute_step-Settles before ss st e k p kept)
        (λ st' e' k' kept'. execute_loop-Settles (before ++ (ss ∷ [])) rest st' e' k' ps kept')

  execute_filter-Settles :
      (k : Clock) (input : List (Spanset S))
      → IsSteady rt P e0
      → All (λ ss. IsAmong ss.spans) input
      → Settles
          (evaluate_filter (run rt env e0) input)
          (execute_filter rt env.attribute_for e0 k input)
  unfolding execute_filter evaluate_filter
  execute_filter-Settles k input steady ps =
      let start : FilterState S = record { forked = false; output = [] } in
      next-Settles (filter_loop (run rt env e0) [] input start)
        (execute_loop rt env.attribute_for [] input start e0 k)
        (λ st. ok (if st.forked then st.output else input))
        (λ st e' k'. (ok (if st.forked then st.output else input), e', k'))
        (execute_loop-Settles [] input start e0 k ps (Stays-refl rt P e0 steady))
        (λ st e' k' kept. (refl, kept))

-- For spans of some kind, on each of which the operands of each AND and OR of an expression have bools
-- for their settled values; no operator takes a pattern, none is compiled, and only ANDs and ORs
-- record: then the filter on any spansets of such spans, which executes on each span what the
-- executions before left of the expression, gives what it gives with the settled values, errors
-- included, whatever the clock measures and whichever operands have been exchanged; and what is left
-- of the expression has the same settled values on such spans.
pub execute_filter-eq-evaluate_filter :
    (rt : Runtime) (P : Span → Type 0) {S : Type 0} (env : Environment S) (e : Expr) (k : Clock)
    (input : List (Spanset S))
    → IsSteady rt P e
    → All (λ ss. All (λ s. P (env.attribute_for s)) ss.spans) input
    → ((execute_filter rt env.attribute_for e k input).0 ≡ evaluate_filter (run rt env e) input)
      × ((span : Span)
          → P span
          → value rt (execute_filter rt env.attribute_for e k input).1 span ≡ value rt e span)
execute_filter-eq-evaluate_filter rt P env e k input steady ps =
    let (same, kept) = execute_filter-Settles rt P env e k input steady ps in (same, kept.1)
