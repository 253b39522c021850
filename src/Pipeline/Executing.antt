-- ===== src/Pipeline/Executing.antt =====
-- traceql/ast.go, SpansetFilter.evaluate, with the executions as they are: each changes the expression,
-- and the next span is given to what is left.
use traceql_syntax.Base.{List, [], ◌∷◌, ◌++◌, Result, ok, err, false, if◌then◌else◌}
use traceql_syntax.Runtime.{Runtime}
use traceql_syntax.Static.{Static}
use traceql_syntax.Optimizer.{Clock}
use traceql_syntax.Expr.{Expr}
use traceql_syntax.Execute.{Span, execute}
use traceql_syntax.Execute.Arrays.{is_match}
use traceql_syntax.Pipeline.Spanset.{Spanset, EvaluateErr}
use traceql_syntax.Pipeline.Filter.{FilterState, fork, filter_spanset}
use traceql_syntax.Pipeline.Evaluate.{lift}

-- A result with the expression that is left and the rest of the clock.
abbrev pub Executed : Type 0 → Type 0
Executed A = Result EvaluateErr A × Expr × Clock

-- Goes on with what a step made, where it is no error.
abbrev pub next : {A B : Type 0} → Executed A → (A → Expr → Clock → Executed B) → Executed B
next (ok a, e, k) f = f a e k
next (err x, e, k) f = (err x, e, k)

module _ (rt : Runtime) {S : Type 0} (attribute_for : S → Span) where
  unfoldable pub execute_span : Expr → Clock → S → Executed Static
  unfolding execute lift
  execute_span e k s =
      let run = execute rt e (attribute_for s) k in (lift run.result, run.expr, run.clock)

  unfoldable pub execute_spans : List S → Expr → Clock → Executed (List S)
  unfolding execute_span
  execute_spans [] e k = (ok [], e, k)
  execute_spans (s ∷ ss) e k = next (execute_span e k s) (λ v e' k'.
      next (execute_spans ss e' k') (λ m e'' k''. (ok (if is_match v then s ∷ m else m), e'', k'')))

  unfoldable pub execute_step :
      List (Spanset S) → Spanset S → FilterState S → Expr → Clock → Executed (FilterState S)
  unfolding fork execute_spans filter_spanset
  execute_step before ss st e k = elim ss.spans [
    | [] ↦ (ok (fork before st), e, k)
    | s ∷ more ↦
        next (execute_spans (s ∷ more) e k)
          (λ m e' k'. (ok (filter_spanset before ss st m), e', k'))
  ]

  unfoldable pub execute_loop :
      List (Spanset S) → List (Spanset S) → FilterState S → Expr → Clock → Executed (FilterState S)
  unfolding execute_step
  execute_loop before [] st e k = (ok st, e, k)
  execute_loop before (ss ∷ rest) st e k =
      next (execute_step before ss st e k)
        (λ st' e' k'. execute_loop (before ++ (ss ∷ [])) rest st' e' k')

  unfoldable pub execute_filter : Expr → Clock → List (Spanset S) → Executed (List (Spanset S))
  unfolding execute_loop
  execute_filter e k input =
      next (execute_loop [] input (record { forked = false; output = [] }) e k)
        (λ st e' k'. (ok (if st.forked then st.output else input), e', k'))
