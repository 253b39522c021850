-- ===== src/Grouping/Grouped.antt =====
-- Each series of a grouping aggregator is that of the spans of its values.
use mathlib.Core.Path.{subst}
use mathlib.Core.Option.{some-injective, none-ne-some}
use traceql_syntax.Base.{
  ℕ, true, false, List, [], ◌∷◌, map, Option, none, some, get_elem?, set, if◌then◌else◌, ◌≡◌, refl,
  sym, ap, ◌∙◌, Bool-cases, inl, inr,
}
use traceql_syntax.Static.{Static}
use traceql_syntax.Attribute.{Attribute}
use traceql_syntax.Pipeline.Group.{map_key}
use traceql_syntax.Series.{Labels}
use traceql_syntax.Grouping.{
  Config, FastStatic, AggregatorWithValues, FastStaticWithValues, GroupingAggregator, fast_eq,
  find_group, new_grouping_aggregator, agg_num, get_grouping_values, get_series, act_on,
  with_series, observe, observe_exemplar,
}
use traceql_syntax.Grouping.Buffer.{IsAt}
use traceql_syntax.Grouping.Values.{arrays-IsAt, grouped, get_grouping_values_lem}
use traceql_syntax.Grouping.Found.{or_new, IsFoundIn, get_series_lem}
use traceql_syntax.Grouping.Stored.{
  fast_eq_sound, state_of, state_of-some, IsShared, get_elem?-within, acted-state_of,
  acted-IsShared,
}

-- A span is observed, or an exemplar for it with a value and a time.
pub data Call (S : Type 0) : Type 0 where
  span_observed : S → Call S
  exemplar_observed : S → ℕ → ℕ → Call S

abbrev pub span_of : {S : Type 0} → Call S → S
span_of (span_observed s) = s
span_of (exemplar_observed s v ts) = s

-- What a call does to the aggregator within.
abbrev pub act_of : {S R : Type 0} → (S → Labels) → Config S R → Call S → R → R
act_of all_attributes c (span_observed s) = c.inner_agg.observe s
act_of all_attributes c (exemplar_observed s v ts) =
    c.inner_agg.observe_exemplar v ts (all_attributes s)

module _ {S R : Type 0} (attribute_for : S → Attribute → Option Static) (sum64 : List ℕ → ℕ) where
  abbrev pub acted : (R → R) → R × List Static → R × List Static
  acted act (r, vals) = (act r, vals)

  -- The state of the series of a key, after an action for a span.
  abbrev pub next :
      Config S R → (R → R) → S → FastStatic → Option (R × List Static) → Option (R × List Static)
  next c act span k x = elim (grouped attribute_for c span) [
    | none ↦ x
    | some vals ↦
        if fast_eq (map (map_key sum64) vals) k then some (acted act (or_new c vals x)) else x
  ]

  -- The aggregator is as its methods leave it.
  pub record IsKept (c : Config S R) (g : GroupingAggregator R) : Type 0 where
    pub shared : IsShared g
    pub buffer : IsAt sum64 [] (agg_num c) g.buf

  module _ (c : Config S R) (act : R → R) (span : S) (g : GroupingAggregator R)
      (buf : FastStaticWithValues) where
    abbrev buffered : GroupingAggregator R
    buffered = record g { buf = buf }

    dropped_lem :
        get_grouping_values attribute_for sum64 c span g.buf ≡ some (buf, false)
        → with_series attribute_for sum64 c act span g ≡ some buffered
    unfolding with_series
    dropped_lem wrote = rw (with_series, wrote) refl

    unmoved :
        grouped attribute_for c span ≡ none
        → (k : FastStatic) → state_of k buffered ≡ next c act span k (state_of k g)
    unfolding state_of
    unmoved none_of k = rw (next, none_of) refl

    stored_lem :
        (g' : GroupingAggregator R) (s : AggregatorWithValues) (r : R)
        → get_grouping_values attribute_for sum64 c span g.buf ≡ some (buf, true)
        → get_series c buffered ≡ (g', s)
        → get_elem? g'.store s.agg ≡ some r
        → with_series attribute_for sum64 c act span g
          ≡ some (record g' { store = set g'.store s.agg (act r) })
    unfolding with_series act_on
    stored_lem g' s r wrote got there =
        rw (with_series, wrote) (ap (act_on act) got ∙ rw (act_on, there) refl)

    stored-next :
        (g' : GroupingAggregator R) (s : AggregatorWithValues) (r : R)
        → IsFoundIn c buffered g' s
        → get_elem? g'.store s.agg ≡ some r
        → grouped attribute_for c span ≡ some buf.vals
        → buf.fast ≡ map (map_key sum64) buf.vals
        → (k : FastStatic)
        → state_of k (record g' { store = set g'.store s.agg (act r) })
          ≡ next c act span k (state_of k g)
    unfolding state_of
    stored-next g' s r is there vals fast k =
        acted-state_of buf.fast k act g' s r is.shared is.found there
        ∙ elim (Bool-cases (fast_eq buf.fast k)) [
          | inl same ↦
              let key = fast_eq_sound buf.fast k same in
              let before =
                state_of-some k g' s r (subst (λ l. find_group l g'.series ≡ some s) key is.found)
                  there in
              let state : some (r, s.vals) ≡ some (or_new c buf.vals (state_of k g)) =
                sym before ∙ (is.state k ∙ rw same refl) in
              rw (next, vals)
                (rw (← fast) (rw same (ap (λ x. some (acted act x)) (some-injective _ _ state))))
          | inr other ↦ rw (next, vals) (rw (← fast) (rw other (is.state k ∙ rw other refl)))
        ]

  with_series_lem :
      (c : Config S R) (act : R → R) (span : S) (g : GroupingAggregator R)
      → IsKept c g
      → (g' : GroupingAggregator R) × (with_series attribute_for sum64 c act span g ≡ some g')
        × IsKept c g'
        × ((k : FastStatic) → state_of k g' ≡ next c act span k (state_of k g))
  with_series_lem c act span g h =
      let (buf, kept, wrote, at, written) =
        get_grouping_values_lem attribute_for sum64 c span g.buf h.buffer in
      let shared : IsShared (record g { buf = buf }) = record {
        valid = h.shared.valid;
        apart = h.shared.apart;
        last = h.shared.last;
      } in
      let (g', s, got, is) = get_series_lem c (record g { buf = buf }) shared in
      elim written [
        | inr (dropped, none_of) ↦ (
          record g { buf = buf },
          dropped_lem c act span g buf (wrote ∙ ap (λ b. some (buf, b)) dropped),
          record { shared = shared; buffer = at },
          λ k. unmoved c act span g buf none_of k,
        )
        | inl (stays, vals, fast) ↦
            let (r, there) =
              get_elem?-within g'.store s.agg (is.shared.valid buf.fast s is.found) in
            (
              record g' { store = set g'.store s.agg (act r) },
              stored_lem c act span g buf g' s r (wrote ∙ ap (λ b. some (buf, b)) stays) got there,
              record {
                shared = acted-IsShared g' s.agg (act r) is.shared;
                buffer = subst (IsAt sum64 [] (agg_num c)) (sym is.same_buf) at;
              },
              stored-next c act span g buf g' s r is there vals fast,
            )
      ]

  -- A call of one of the methods.
  abbrev pub run_call :
      (S → Labels) → Config S R → Call S → GroupingAggregator R → Option (GroupingAggregator R)
  run_call all_attributes c (span_observed s) g = observe attribute_for sum64 c s g
  run_call all_attributes c (exemplar_observed s v ts) g =
      observe_exemplar attribute_for sum64 all_attributes c s v ts g

  abbrev pub run_calls :
      (S → Labels)
      → Config S R
      → List (Call S)
      → GroupingAggregator R
      → Option (GroupingAggregator R)
  run_calls all_attributes c [] g = some g
  run_calls all_attributes c (call ∷ calls) g = elim (run_call all_attributes c call g) [
    | none ↦ none
    | some g' ↦ run_calls all_attributes c calls g'
  ]

  -- The state of the series of a key after calls, by the spans that are grouped by it.
  abbrev pub state_after :
      (S → Labels)
      → Config S R
      → List (Call S)
      → FastStatic
      → Option (R × List Static)
      → Option (R × List Static)
  state_after all_attributes c [] k x = x
  state_after all_attributes c (call ∷ calls) k x =
      state_after all_attributes c calls k
        (next c (act_of all_attributes c call) (span_of call) k x)

  run_call_lem :
      (all_attributes : S → Labels) (c : Config S R) (call : Call S) (g : GroupingAggregator R)
      → IsKept c g
      → (g' : GroupingAggregator R) × (run_call all_attributes c call g ≡ some g')
        × IsKept c g'
        × ((k : FastStatic)
            → state_of k g' ≡ next c (act_of all_attributes c call) (span_of call) k (state_of k g))
  unfolding observe observe_exemplar
  run_call_lem all_attributes c (span_observed s) g h =
      with_series_lem c (c.inner_agg.observe s) s g h
  run_call_lem all_attributes c (exemplar_observed s v ts) g h =
      with_series_lem c (c.inner_agg.observe_exemplar v ts (all_attributes s)) s g h

  run_calls_lem :
      (all_attributes : S → Labels) (c : Config S R) (calls : List (Call S))
      (g : GroupingAggregator R)
      → IsKept c g
      → (g' : GroupingAggregator R) × (run_calls all_attributes c calls g ≡ some g')
        × IsKept c g'
        × ((k : FastStatic) → state_of k g' ≡ state_after all_attributes c calls k (state_of k g))
  run_calls_lem all_attributes c [] g h = (g, refl, h, λ k. refl)
  run_calls_lem all_attributes c (call ∷ calls) g h =
      let (mid, ran, kept, states) = run_call_lem all_attributes c call g h in
      let (g', ran_all, kept', states') = run_calls_lem all_attributes c calls mid kept in
      (
        g',
        rw (run_calls, ran) ran_all,
        kept',
        λ k. states' k ∙ ap (state_after all_attributes c calls k) (states k),
      )

  new-IsKept : (c : Config S R) → IsKept c (new_grouping_aggregator (agg_num c))
  unfolding new_grouping_aggregator find_group
  new-IsKept c = record {
    shared = record {
      valid = λ k s e. absurd (none-ne-some s e);
      apart = λ j k s t e f same. absurd (none-ne-some s e);
      last = λ s e. absurd (none-ne-some s e);
    };
    buffer = arrays-IsAt sum64 (agg_num c);
  }

  -- Any sequence of calls of a new aggregator runs without a panic, and leaves for each key the series of
  -- just the spans that are grouped by it and not dropped: its aggregator is a new one after the calls for
  -- them in order, its values are those of the first of them, and there is none if there are no such spans.
  pub run_calls-state_after :
      (all_attributes : S → Labels) (c : Config S R) (calls : List (Call S))
      → (g : GroupingAggregator R) × (run_calls all_attributes c calls
            (new_grouping_aggregator (agg_num c))
          ≡ some g)
        × ((k : FastStatic) → state_of k g ≡ state_after all_attributes c calls k none)
  unfolding new_grouping_aggregator find_group state_of
  run_calls-state_after all_attributes c calls =
      let (g, ran, kept, states) =
        run_calls_lem all_attributes c calls (new_grouping_aggregator (agg_num c)) (new-IsKept c) in
      (g, ran, states)
