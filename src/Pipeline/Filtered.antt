-- ===== src/Pipeline/Filtered.antt =====
-- What a span filter is to give, and that it gives it.
use traceql_syntax.Base.{
  true, false, List, [], ◌∷◌, ◌++◌, ◌≡◌, refl, ap, ap₂, ◌∙◌, Result, ok, err, ◌>>=◌, if◌then◌else◌,
}
use traceql_syntax.Static.{Static, static_bool}
use traceql_syntax.Execute.Arrays.{is_match}
use traceql_syntax.Pipeline.Spanset.{Spanset, EvaluateErr}
use traceql_syntax.Pipeline.Filter.{matching_spans, evaluate_filter}
use traceql_syntax.Pipeline.Copied.{with_spans, filter_matching, evaluate_filter-eq-matching}

bind_ok :
    {A B C : Type 0} (r : Result EvaluateErr A) (g : A → B) (f : B → Result EvaluateErr C)
    → ((r >>= λ a. ok (g a)) >>= f) ≡ (r >>= λ a. f (g a))
bind_ok (ok a) g f = refl
bind_ok (err e) g f = refl

module _ {S : Type 0} where
  -- The spans, each with what the expression is on it, up to the first error.
  unfoldable pub results :
      (S → Result EvaluateErr Static) → List S → Result EvaluateErr (List (S × Static))
  results run [] = ok []
  results run (s ∷ ss) = run s >>= λ v. results run ss >>= λ rest. ok ((s, v) ∷ rest)

  -- The spans with the bool true.
  unfoldable pub true_of : List (S × Static) → List S
  true_of [] = []
  true_of ((s, static_bool true) ∷ rest) = s ∷ true_of rest
  true_of ((s, v) ∷ rest) = true_of rest

  -- What the filter is to give: each spanset with the spans that the expression is true of.
  unfoldable pub filter_each :
      (S → Result EvaluateErr Static) → List (Spanset S) → Result EvaluateErr (List (Spanset S))
  unfolding results true_of with_spans
  filter_each run [] = ok []
  filter_each run (ss ∷ sss) = results run ss.spans >>= λ vs.
      filter_each run sss >>= λ out. ok (with_spans ss (true_of vs) ++ out)

  true_of-cons :
      (s : S) (v : Static) (rest : List (S × Static))
      → (if is_match v then s ∷ true_of rest else true_of rest) ≡ true_of ((s, v) ∷ rest)
  unfolding true_of
  true_of-cons s (static_bool true) rest = refl
  true_of-cons s (static_bool false) rest = refl
  true_of-cons s _ rest = refl

  cons_result :
      (s : S) (v : Result EvaluateErr Static) (r : Result EvaluateErr (List (S × Static)))
      → (v >>= λ v. (r >>= λ vs. ok (true_of vs)) >>= λ m. ok (if is_match v then s ∷ m else m))
        ≡ ((v >>= λ v. r >>= λ rest. ok ((s, v) ∷ rest)) >>= λ vs. ok (true_of vs))
  cons_result s (err e) r = refl
  cons_result s (ok v) (err e) = refl
  cons_result s (ok v) (ok rest) = ap (λ m. ok m) (true_of-cons s v rest)

  matching_spans_lem :
      (run : S → Result EvaluateErr Static) (ss : List S)
      → matching_spans run ss ≡ (results run ss >>= λ vs. ok (true_of vs))
  unfolding matching_spans results true_of
  matching_spans_lem run [] = refl
  matching_spans_lem run (s ∷ ss) =
      ap (λ r. run s >>= λ v. r >>= λ m. ok (if is_match v then s ∷ m else m))
        (matching_spans_lem run ss)
      ∙ cons_result s (run s) (results run ss)

  matching-eq-each :
      (run : S → Result EvaluateErr Static) (input : List (Spanset S))
      → filter_matching run input ≡ filter_each run input
  unfolding filter_matching filter_each
  matching-eq-each run [] = refl
  matching-eq-each run (ss ∷ sss) =
      ap₂ (λ r out. r >>= λ m. out >>= λ o. ok (with_spans ss m ++ o))
        (matching_spans_lem run ss.spans) (matching-eq-each run sss)
      ∙ bind_ok (results run ss.spans) true_of
          (λ m. filter_each run sss >>= λ o. ok (with_spans ss m ++ o))

-- The filter evaluates, on any spansets and for any expression, to the spansets of its input in
-- order, each with just its spans that the expression is the bool true on, without those where none
-- is, or to the first error of the expression.
pub evaluate_filter-eq-each :
    {S : Type 0} (run : S → Result EvaluateErr Static) (input : List (Spanset S))
    → evaluate_filter run input ≡ filter_each run input
evaluate_filter-eq-each run input =
    evaluate_filter-eq-matching run input ∙ matching-eq-each run input
