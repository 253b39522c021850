-- ===== src/Pipeline/Copied.antt =====
-- A span filter that copies only where it must does what one does that always copies.
use traceql_syntax.Base.{
  Bool, true, false, List, [], ◌∷◌, ◌++◌, length, ◌==◌, ◌≤◌, ◌≡◌, refl, sym, ap, ◌∙◌, Result, ok,
  err, ◌>>=◌, if◌then◌else◌, arith, Bool-cases, absurd_test, Text, inl, inr,
}
use mathlib.Core.List.{append-nil, append_assoc}
use traceql_syntax.Static.{Static}
use traceql_syntax.Execute.Arrays.{is_match}
use traceql_syntax.Pipeline.Spanset.{Spanset, EvaluateErr, TraceInfo}
use traceql_syntax.Pipeline.Filter.{
  FilterState, matching_spans, fork, filter_spanset, filter_step, filter_loop, evaluate_filter,
}

module _ {S : Type 0} where
  -- A spanset with the spans that are left, unless none is.
  unfoldable pub with_spans : Spanset S → List S → List (Spanset S)
  with_spans ss [] = []
  with_spans ss (m ∷ ms) = record ss { spans = m ∷ ms } ∷ []

  -- The filter that always copies, with the loop over the spans as it is.
  unfoldable pub filter_matching :
      (S → Result EvaluateErr Static) → List (Spanset S) → Result EvaluateErr (List (Spanset S))
  unfolding matching_spans with_spans
  filter_matching run [] = ok []
  filter_matching run (ss ∷ sss) = matching_spans run ss.spans >>= λ m.
      filter_matching run sss >>= λ out. ok (with_spans ss m ++ out)

  -- What a result of the loop over the spans is.
  Selects : List S → Result EvaluateErr (List S) → Type 0
  Selects xs (ok m) = (length m ≤ length xs) × (length m ≡ length xs → m ≡ xs)
  Selects xs (err e) = Unit

  Selects-step :
      (x : S) (xs : List S) (v : Static) (r : Result EvaluateErr (List S))
      → Selects xs r
      → Selects (x ∷ xs) (r >>= λ m. ok (if is_match v then x ∷ m else m))
  unfolding Selects
  Selects-step x xs v (err e) h = tt
  Selects-step x xs v (ok m) (short, full) = elim (Bool-cases (is_match v)) [
    | inl yes' ↦ rw yes' (omega (arith, short), λ e. ap (λ ys. x ∷ ys) (full (omega (arith, e))))
    | inr no' ↦ rw no' (omega (arith, short), λ e. absurd (omega (arith, e, short)))
  ]

  Selects-start :
      (x : S) (xs : List S) (v : Result EvaluateErr Static) (r : Result EvaluateErr (List S))
      → Selects xs r
      → Selects (x ∷ xs) (v >>= λ v. r >>= λ m. ok (if is_match v then x ∷ m else m))
  unfolding Selects
  Selects-start x xs (err e) r h = tt
  Selects-start x xs (ok v) r h = Selects-step x xs v r h

  matching_spans-Selects :
      (run : S → Result EvaluateErr Static) (xs : List S) → Selects xs (matching_spans run xs)
  unfolding matching_spans Selects
  matching_spans-Selects run [] = (omega arith, λ e. refl)
  matching_spans-Selects run (x ∷ xs) =
      Selects-start x xs (run x) (matching_spans run xs) (matching_spans-Selects run xs)

  -- The output so far.
  content : List (Spanset S) → FilterState S → List (Spanset S)
  content before st = if st.forked then st.output else before

  abbrev IsUnforkedEmpty : FilterState S → Type 0
  IsUnforkedEmpty st = st.forked ≡ false → st.output ≡ []

  fork-content :
      (forked : Bool) (before output : List (Spanset S))
      → (forked ≡ false → output ≡ [])
      → (content before (fork before (record { forked = forked; output = output }))
          ≡ content before (record { forked = forked; output = output }))
        × ((fork before (record { forked = forked; output = output })).forked ≡ true)
  unfolding fork content
  fork-content true before output h = (refl, refl)
  fork-content false before output h = (rw (h refl) refl, refl)

  -- What the state after a spanset has to be.
  abbrev Steps : List (Spanset S) → Spanset S → FilterState S → List S → FilterState S → Type 0
  Steps before ss st m st' =
      (content (before ++ (ss ∷ [])) st' ≡ content before st ++ with_spans ss m)
      × IsUnforkedEmpty st'

  same_spans :
      (ss : Spanset S) (m : List S)
      → Selects ss.spans (ok m)
      → length m ≡ length ss.spans
      → record ss { spans = m } ≡ ss
  unfolding Selects
  same_spans ss m h e = ap (λ xs. record ss { spans = xs }) (h.1 e)

  full_step :
      (forked : Bool) (before output : List (Spanset S)) (ss : Spanset S) (m : S) (ms : List S)
      → (forked ≡ false → output ≡ [])
      → record ss { spans = m ∷ ms } ≡ ss
      → Steps before ss
          (record { forked = forked; output = output })
          (m ∷ ms)
          (if forked
            then record { forked = forked; output = output ++ (ss ∷ []) }
            else record { forked = forked; output = output })
  unfolding content with_spans
  full_step true before output ss m ms h e = (rw e refl, λ f. absurd_test f)
  full_step false before output ss m ms h e = (rw e refl, h)

  partial_step :
      (forked : Bool) (before output : List (Spanset S)) (ss : Spanset S) (m : S) (ms : List S)
      → (forked ≡ false → output ≡ [])
      → Steps before ss
          (record { forked = forked; output = output })
          (m ∷ ms)
          (record (fork before (record { forked = forked; output = output })) {
            output =
                (fork before (record { forked = forked; output = output })).output
                ++ (record ss { spans = m ∷ ms } ∷ []);
          })
  unfolding content with_spans fork
  partial_step true before output ss m ms h = (refl, λ f. absurd_test f)
  partial_step false before output ss m ms h = (rw (h refl) refl, λ f. absurd_test f)

  empty_step :
      (forked : Bool) (before output : List (Spanset S)) (ss : Spanset S)
      → (forked ≡ false → output ≡ [])
      → Steps before ss
          (record { forked = forked; output = output })
          []
          (fork before (record { forked = forked; output = output }))
  unfolding content with_spans fork
  empty_step true before output ss h = (sym (append-nil output), λ f. absurd_test f)
  empty_step false before output ss h = (rw (h refl) (sym (append-nil before)), λ f. absurd_test f)

  spanset_step :
      (before : List (Spanset S)) (ss : Spanset S) (st : FilterState S) (m : List S)
      → IsUnforkedEmpty st
      → Selects ss.spans (ok m)
      → Steps before ss st m (filter_spanset before ss st m)
  unfolding filter_spanset
  spanset_step before ss st [] h sel = empty_step st.forked before st.output ss h
  spanset_step before ss st (m ∷ ms) h sel =
      elim (Bool-cases (length (m ∷ ms) == length ss.spans)) [
        | inl full ↦ rw full (
            full_step st.forked before st.output ss m ms h
              (same_spans ss (m ∷ ms) sel (ground (arith, full))))
        | inr part ↦ rw part (partial_step st.forked before st.output ss m ms h)
      ]

  step_lem :
      (run : S → Result EvaluateErr Static) (before : List (Spanset S)) (scalar : Static)
      (spans : List S) (trace : TraceInfo) (attributes : List (Text × Static)) (st : FilterState S)
      → let ss : Spanset S = record {
        scalar = scalar;
        spans = spans;
        trace = trace;
        attributes = attributes;
      } in
        filter_step run before ss st
        ≡ (matching_spans run spans >>= λ m. ok (filter_spanset before ss st m))
  unfolding filter_step matching_spans filter_spanset
  step_lem run before scalar [] trace attributes st = refl
  step_lem run before scalar (s ∷ spans) trace attributes st = refl

  -- What evaluate_filter does with the state at the end of its input.
  finish : List (Spanset S) → FilterState S → Result EvaluateErr (List (Spanset S))
  unfolding content
  finish input st = ok (content input st)

  regroup :
      (c w : List (Spanset S)) (r : Result EvaluateErr (List (Spanset S)))
      → (r >>= λ out. ok (c ++ w ++ out)) ≡ ((r >>= λ out. ok (w ++ out)) >>= λ out. ok (c ++ out))
  regroup c w (err e) = refl
  regroup c w (ok out) = ap (λ xs. ok xs) (append_assoc c w out)

  -- One turn of the loop, where the rest of the loop is as it should be.
  turn :
      (before rest : List (Spanset S)) (ss : Spanset S) (st : FilterState S)
      (go : FilterState S → Result EvaluateErr (FilterState S))
      (each : Result EvaluateErr (List (Spanset S))) (r : Result EvaluateErr (List S))
      → IsUnforkedEmpty st
      → Selects ss.spans r
      → ((st' : FilterState S)
          → IsUnforkedEmpty st'
          → (go st' >>= finish (before ++ (ss ∷ []) ++ rest))
            ≡ (each >>= λ out. ok (content (before ++ (ss ∷ [])) st' ++ out)))
      → ((r >>= λ m. ok (filter_spanset before ss st m)) >>= λ st'.
          go st' >>= finish (before ++ (ss ∷ rest)))
        ≡ ((r >>= λ m. each >>= λ out. ok (with_spans ss m ++ out)) >>= λ out.
            ok (content before st ++ out))
  turn before rest ss st go each (err e) h sel ih = refl
  turn before rest ss st go each (ok m) h sel ih =
      let (same, next) = spanset_step before ss st m h sel in
      let st' = filter_spanset before ss st m in
      ap (λ input. go st' >>= finish input) (sym (append_assoc before (ss ∷ []) rest))
      ∙ ih st' next
      ∙ ap (λ c. each >>= λ out. ok (c ++ out)) same
      ∙ regroup (content before st) (with_spans ss m) each

  bind_assoc :
      (r : Result EvaluateErr (FilterState S))
      (f : FilterState S → Result EvaluateErr (FilterState S))
      (g : FilterState S → Result EvaluateErr (List (Spanset S)))
      → (r >>= f >>= g) ≡ (r >>= λ st. f st >>= g)
  bind_assoc (ok st) f g = refl
  bind_assoc (err e) f g = refl

  loop_lem :
      (run : S → Result EvaluateErr Static) (before rest : List (Spanset S)) (st : FilterState S)
      → IsUnforkedEmpty st
      → (filter_loop run before rest st >>= finish (before ++ rest))
        ≡ (filter_matching run rest >>= λ out. ok (content before st ++ out))
  unfolding filter_loop filter_matching finish
  loop_lem run before [] st h = rw (append-nil before, append-nil (content before st)) refl
  loop_lem run before (ss ∷ rest) st h =
      ap
        (λ r.
          r
          >>= (λ st'. filter_loop run (before ++ (ss ∷ [])) rest st')
          >>= finish (before ++ (ss ∷ rest)))
        (step_lem run before ss.scalar ss.spans ss.trace ss.attributes st)
      ∙ bind_assoc (matching_spans run ss.spans >>= λ m. ok (filter_spanset before ss st m))
          (λ st'. filter_loop run (before ++ (ss ∷ [])) rest st') (finish (before ++ (ss ∷ rest)))
      ∙ turn before rest ss st (λ st'. filter_loop run (before ++ (ss ∷ [])) rest st')
          (filter_matching run rest) (matching_spans run ss.spans) h
          (matching_spans-Selects run ss.spans)
          (λ st' next. loop_lem run (before ++ (ss ∷ [])) rest st' next)

  unchanged : (r : Result EvaluateErr (List (Spanset S))) → (r >>= λ out. ok out) ≡ r
  unchanged (ok out) = refl
  unchanged (err e) = refl

pub evaluate_filter-eq-matching :
    {S : Type 0} (run : S → Result EvaluateErr Static) (input : List (Spanset S))
    → evaluate_filter run input ≡ filter_matching run input
unfolding evaluate_filter filter_matching content finish
evaluate_filter-eq-matching run input =
    loop_lem run [] input (record { forked = false; output = [] }) (λ h. refl)
    ∙ unchanged (filter_matching run input)
