-- ===== src/Pipeline/Filter.antt =====
-- traceql/ast.go, SpansetFilter.evaluate: it gives back its input where everything passes, and
-- copies from the first spanset on that does not pass as it is.
use traceql_syntax.Base.{
  Bool, true, false, List, [], ◌∷◌, ◌++◌, length, ◌==◌, Result, ok, ◌>>=◌, if◌then◌else◌,
}
use traceql_syntax.Static.{Static}
use traceql_syntax.Execute.Arrays.{is_match}
use traceql_syntax.Pipeline.Spanset.{Spanset, EvaluateErr}

-- The output that is made once it differs from the input.
pub record FilterState (S : Type 0) : Type 0 where
  pub forked : Bool
  pub output : List (Spanset S)

module _ {S : Type 0} where
  -- The spans that the expression is true of, up to the first error.
  unfoldable pub matching_spans :
      (S → Result EvaluateErr Static) → List S → Result EvaluateErr (List S)
  matching_spans run [] = ok []
  matching_spans run (s ∷ ss) =
      run s >>= λ v. matching_spans run ss >>= λ m. ok (if is_match v then s ∷ m else m)

  -- The spansets before this one are copied.
  unfoldable pub fork : List (Spanset S) → FilterState S → FilterState S
  fork before st = if st.forked then st else record { forked = true; output = st.output ++ before }

  -- After the spans that match are known.
  unfoldable pub filter_spanset :
      List (Spanset S) → Spanset S → FilterState S → List S → FilterState S
  unfolding fork
  filter_spanset before ss st [] = fork before st
  filter_spanset before ss st (m ∷ ms) =
      if length (m ∷ ms) == length ss.spans
      then (if st.forked then record st { output = st.output ++ (ss ∷ []) } else st)
      else record (fork before st) {
        output = (fork before st).output ++ (record ss { spans = m ∷ ms } ∷ []);
      }

  -- A spanset without spans is dropped.
  unfoldable pub filter_step :
      (S → Result EvaluateErr Static)
      → List (Spanset S)
      → Spanset S
      → FilterState S
      → Result EvaluateErr (FilterState S)
  unfolding fork matching_spans filter_spanset
  filter_step run before ss st = elim ss.spans [
    | [] ↦ ok (fork before st)
    | s ∷ more ↦ matching_spans run (s ∷ more) >>= λ m. ok (filter_spanset before ss st m)
  ]

  -- The loop, with the spansets before the current one.
  unfoldable pub filter_loop :
      (S → Result EvaluateErr Static)
      → List (Spanset S)
      → List (Spanset S)
      → FilterState S
      → Result EvaluateErr (FilterState S)
  unfolding filter_step
  filter_loop run before [] st = ok st
  filter_loop run before (ss ∷ rest) st =
      filter_step run before ss st >>= λ st'. filter_loop run (before ++ (ss ∷ [])) rest st'

  unfoldable pub evaluate_filter :
      (S → Result EvaluateErr Static) → List (Spanset S) → Result EvaluateErr (List (Spanset S))
  unfolding filter_loop
  evaluate_filter run input =
      filter_loop run [] input (record { forked = false; output = [] }) >>= λ st.
      ok (if st.forked then st.output else input)
