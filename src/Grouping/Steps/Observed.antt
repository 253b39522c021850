-- ===== src/Grouping/Steps/Observed.antt =====
-- What each interval of a step aggregator is left with.
use traceql_syntax.Base.{
  ℕ, zero, suc, ◌+◌, ◌≤◌, ◌<◌, Bool, false, List, [], ◌∷◌, map, Option, none, some, length,
  length-set, get_elem?, get_elem?-set, set, ◌==◌, ltb, leb, is_negative, word_mod, if◌then◌else◌,
  ◌≡◌, refl, sym, ap, ◌∙◌, arith, Bool-cases, Option-cases, ◌⊎◌, ◌&&◌, inl, inr,
}
use mathlib.Core.Path.{subst}
use traceql_syntax.Buckets.{LimitedBucketSet}
use traceql_syntax.Series.{Exemplar}
use mathlib.Core.Option.{some-injective, none-ne-some}
use traceql_syntax.Grouping.Stored.{get_elem?-within}
use traceql_syntax.Range.Intervals.{
  IntervalMapper, query_range, query_range_mapper, new_interval_mapper, interval, count,
}
use traceql_syntax.Range.Intervals.Located.{located, outside}
use traceql_syntax.Grouping.Steps.{
  VectorAggregator, StepAggregator, replicate, new_exemplar_bucket_set, new_step_aggregator,
  step_observe, step_samples,
}

-- Whether an interval is the one of a span.
abbrev pub is_in : Option ℕ → ℕ → Bool
is_in none i = false
is_in (some j) i = i == j

-- The intervals of a mapper are below its count.
abbrev Bounded : IntervalMapper → Type 0
Bounded m = (ts i : ℕ) → interval m ts ≡ some i → i < count m

outside_cases : (s e ts : ℕ) → (ltb s ts && leb ts e) ≡ false → (ts ≤ s) ⊎ (e < ts)
outside_cases s e ts h = elim (Bool-cases (ltb s ts)) [
  | inl after ↦ inr (ground arith)
  | inr before ↦ inl (ground arith)
]

module _ {S V : Type 0} (inner : VectorAggregator S V) (start_time : S → ℕ) where
  -- Spans observed one after the other.
  abbrev pub step_observe_all : List S → StepAggregator V → Option (StepAggregator V)
  step_observe_all [] s = some s
  step_observe_all (span ∷ spans) s = elim (step_observe inner start_time span s) [
    | none ↦ none
    | some s' ↦ step_observe_all spans s'
  ]

  -- A vector after the spans of an interval.
  abbrev pub vector_after : IntervalMapper → ℕ → List S → V → V
  vector_after m i [] v = v
  vector_after m i (span ∷ spans) v =
      vector_after m i spans
        (if is_in (interval m (start_time span)) i then inner.vector_observe span v else v)

  -- A vector in the place of one.
  written :
      (span : S) (vs : List V) (j : ℕ) (w : V)
      → j < length vs
      → get_elem? vs j ≡ some w
      → (i : ℕ) (v : V) → get_elem? vs i ≡ some v
      → get_elem? (set vs j (inner.vector_observe span w)) i
        ≡ some (if i == j then inner.vector_observe span v else v)
  written span vs j w within at i v e = elim (Bool-cases (i == j)) [
    | inl here ↦
        let place : j ≡ i = ground (arith, here) in
        let same : w ≡ v = some-injective w v (sym at ∙ (ap (get_elem? vs) place ∙ e)) in
        get_elem?-set vs j (inner.vector_observe span w) i within
        ∙ rw here (ap (λ u. some (inner.vector_observe span u)) same)
    | inr elsewhere ↦ get_elem?-set vs j (inner.vector_observe span w) i within ∙ rw elsewhere e
  ]

module _ {S V : Type 0} (inner : VectorAggregator S V) (start_time : S → ℕ) (m : IntervalMapper)
    (bounded : Bounded m) (exemplars : List Exemplar) (buckets : LimitedBucketSet) where
  abbrev stepped : List V → StepAggregator V
  stepped vs = record {
    interval_mapper = m;
    vectors = vs;
    exemplars = exemplars;
    exemplar_buckets = buckets;
  }

  step_observe_lem :
      (span : S) (vs : List V)
      → length vs ≡ count m
      → (ws : List V) × (step_observe inner start_time span (stepped vs) ≡ some (stepped ws))
        × (length ws ≡ count m)
        × ((i : ℕ) (v : V)
            → get_elem? vs i ≡ some v
            → get_elem? ws i
              ≡ some (
                  if is_in (interval m (start_time span)) i
                  then inner.vector_observe span v
                  else v))
  unfolding step_observe
  step_observe_lem span vs size = elim (Option-cases (interval m (start_time span))) [
    | inl outside ↦ (vs, rw (step_observe, outside) refl, size, λ i v e. rw outside e)
    | inr (j, inside) ↦
        let b = bounded (start_time span) j inside in
        let (w, at) = get_elem?-within vs j (omega (arith, b, size)) in
        (
          set vs j (inner.vector_observe span w),
          rw (step_observe, inside) (rw at refl),
          length-set vs j (inner.vector_observe span w) ∙ size,
          λ i v e.
              rw inside (written inner start_time span vs j w (omega (arith, b, size)) at i v e),
        )
  ]

  step_observe_all_lem :
      (spans : List S) (vs : List V)
      → length vs ≡ count m
      → (ws : List V) × (step_observe_all inner start_time spans (stepped vs) ≡ some (stepped ws))
        × ((i : ℕ) (v : V)
            → get_elem? vs i ≡ some v
            → get_elem? ws i ≡ some (vector_after inner start_time m i spans v))
  step_observe_all_lem [] vs size = (vs, refl, λ i v e. e)
  step_observe_all_lem (span ∷ spans) vs size =
      let (mid, ran, size', at) = step_observe_lem span vs size in
      let (ws, ran_all, at') = step_observe_all_lem spans mid size' in
      (ws, rw (step_observe_all, ran) ran_all, λ i v e. at' i _ (at i v e))

get_elem?-replicate : {V : Type 0} (n i : ℕ) (v : V) → i < n → get_elem? (replicate n v) i ≡ some v
get_elem?-replicate zero i v h = absurd (omega (arith, h))
get_elem?-replicate (suc n) zero v h = refl
get_elem?-replicate (suc n) (suc i) v h = get_elem?-replicate n i v (omega arith)

length-replicate : {V : Type 0} (n : ℕ) (v : V) → length (replicate n v) ≡ n
length-replicate zero v = refl
length-replicate (suc n) v = ap suc (length-replicate n v)

module _ (start end step : ℕ) (positive : 0 < step) (ordered : start ≤ end)
    (room : end + step < word_mod) where
  interval_within : Bounded (query_range (query_range_mapper start end step))
  interval_within ts i e =
      let m = query_range_mapper start end step in
      elim (Bool-cases (ltb m.start ts && leb ts m.end)) [
        | inl is_inside ↦
            let (j, at, within, early, late) =
              located start end step ts positive ordered room (ground (arith, is_inside))
                (ground (arith, is_inside)) in
            subst (λ k. k < count (query_range m)) (some-injective j i (sym at ∙ e)) within
        | inr is_outside ↦ absurd (
            none-ne-some i (
              sym (
                outside start end step ts positive ordered room
                  (outside_cases m.start m.end ts is_outside))
              ∙ e))
      ]

get_elem?-map :
    {A B : Type 0} (f : A → B) (xs : List A) (i : ℕ) (x : A)
    → get_elem? xs i ≡ some x
    → get_elem? (map f xs) i ≡ some (f x)
get_elem?-map f [] i x e = absurd (none-ne-some x e)
get_elem?-map f (y ∷ ys) zero x e = ap (λ z. some (f z)) (some-injective y x e)
get_elem?-map f (y ∷ ys) (suc i) x e = get_elem?-map f ys i x e

new_mapper :
    (start end step : ℕ)
    → 0 < step
    → new_interval_mapper start end step false
      ≡ some (query_range (query_range_mapper start end step))
unfolding new_interval_mapper
new_mapper start end step positive =
    let test : (step == 0) ≡ false = ground arith in rw (new_interval_mapper, test) refl

new_step_aggregator_lem :
    {S V : Type 0} (inner : VectorAggregator S V) (start_time : S → ℕ) (start end step limit : ℕ)
    (m : IntervalMapper)
    → new_interval_mapper start end step false ≡ some m
    → is_negative (count m) ≡ false
    → new_step_aggregator inner start_time start end step limit
      ≡ some (record {
        interval_mapper = m;
        vectors = replicate (count m) inner.create;
        exemplars = [];
        exemplar_buckets = new_exemplar_bucket_set limit start end step;
      })
unfolding new_step_aggregator
new_step_aggregator_lem inner start_time start end step limit m e int =
    rw (new_step_aggregator, e) (rw int refl)

-- For a step above 0, a range whose end is a step away from the largest uint64 at least, and a count of
-- intervals that is no int below 0: spans with any start times are observed by a new step aggregator
-- without a panic, and the sample of each interval is that of a new vector after just the spans of the
-- interval, in order.
pub step_samples-vector_after :
    {S V : Type 0} (inner : VectorAggregator S V) (start_time : S → ℕ) (start end step limit : ℕ)
    (spans : List S)
    → 0 < step
    → start ≤ end
    → end + step < word_mod
    → is_negative (count (query_range (query_range_mapper start end step))) ≡ false
    → (s t : StepAggregator V) × (new_step_aggregator inner start_time start end step limit
        ≡ some s)
      × (step_observe_all inner start_time spans s ≡ some t)
      × ((i : ℕ)
          → i < count (query_range (query_range_mapper start end step))
          → get_elem? (step_samples inner start_time t) i
            ≡ some (
                inner.sample (
                  vector_after inner start_time
                    (query_range (query_range_mapper start end step))
                    i
                    spans
                    inner.create)))
unfolding step_samples
step_samples-vector_after inner start_time start end step limit spans positive ordered room int =
    let m = query_range (query_range_mapper start end step) in
    let buckets = new_exemplar_bucket_set limit start end step in
    let vs = replicate (count m) inner.create in
    let (ws, ran, at) =
      step_observe_all_lem inner start_time m (interval_within start end step positive ordered room)
        [] buckets spans vs (length-replicate (count m) inner.create) in
    (
      stepped inner start_time m (interval_within start end step positive ordered room) [] buckets
          vs,
      stepped inner start_time m (interval_within start end step positive ordered room) [] buckets
          ws,
      new_step_aggregator_lem inner start_time start end step limit m
          (new_mapper start end step positive) int,
      ran,
      λ i h.
          get_elem?-map inner.sample ws i _
            (at i inner.create (get_elem?-replicate (count m) i inner.create h)),
    )
