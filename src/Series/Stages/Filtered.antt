-- ===== src/Series/Stages/Filtered.antt =====
-- What a filter on metrics leaves.
use traceql_syntax.Base.{
  ℕ, zero, suc, true, false, not, ◌&&◌, List, [], ◌∷◌, any, select, Option, none, some, get_elem?,
  if◌then◌else◌, ◌≡◌, refl, sym, ap, ◌∙◌, arith, Bool-cases, inl, inr,
}
use traceql_syntax.Runtime.{Runtime, IsFloatOrder}
use traceql_syntax.Series.{TimeSeries, SeriesMapKey, SeriesSet, series_key_eq, find}
use traceql_syntax.Series.Maps.{HasUniqueKeys, series_key_eq_sound}
use traceql_syntax.Series.Top.{is_nan, value_of}
use traceql_syntax.Series.Top.Kept.{or_else, cell}
use traceql_syntax.Series.Stages.{
  MetricsFilter, compare_value, stays, filter_values, process_filter,
}

-- The values of a series, and none where there is no series.
abbrev values_of : Option TimeSeries → ℕ → Option ℕ
values_of none i = none
values_of (some s) i = get_elem? s.values i

value_of-find :
    (k : SeriesMapKey) (i : ℕ) (set : SeriesSet) → value_of k i set ≡ values_of (find k set) i
unfolding value_of
value_of-find k i set = ground arith

module _ (rt : Runtime) (m : MetricsFilter) where
  filtered : TimeSeries → TimeSeries
  unfolding select
  filtered s = record s {
    values = filter_values rt m s.values;
    exemplars = select (λ e. stays rt m e.value) s.exemplars;
  }

  abbrev filter_found : Option TimeSeries → Option TimeSeries
  filter_found none = none
  filter_found (some s) = if any (stays rt m) s.values then some (filtered s) else none

  find-filter :
      (k : SeriesMapKey) (input : SeriesSet)
      → HasUniqueKeys input
      → find k (process_filter rt m input) ≡ filter_found (find k input)
  unfolding process_filter find filtered
  find-filter k [] u = refl
  find-filter k ((j, s) ∷ rest) (n, u) = elim (Bool-cases (any (stays rt m) s.values)) [
    | inl some' ↦ elim (Bool-cases (series_key_eq k j)) [
      | inl same ↦ rw (some', same, find) (rw some' refl)
      | inr other ↦ rw (some', other, find) (find-filter k rest u)
    ]
    | inr none' ↦ elim (Bool-cases (series_key_eq k j)) [
      | inl same ↦
          let gone : find k rest ≡ none =
            ap (λ i. find i rest) (series_key_eq_sound k j same) ∙ n in
          rw (none', same, find) (find-filter k rest u ∙ (ap filter_found gone ∙ rw none' refl))
      | inr other ↦ rw (none', other, find) (find-filter k rest u)
    ]
  ]

  get_elem?-filter :
      (vs : List ℕ) (i : ℕ)
      → or_else rt.nan (get_elem? (filter_values rt m vs) i) ≡ (
          if stays rt m (or_else rt.nan (get_elem? vs i))
          then or_else rt.nan (get_elem? vs i)
          else rt.nan)
  unfolding filter_values
  get_elem?-filter [] i = ground arith
  get_elem?-filter (v ∷ vs) zero = refl
  get_elem?-filter (v ∷ vs) (suc i) = get_elem?-filter vs i

  none_stays :
      (o : IsFloatOrder rt) (vs : List ℕ) (i : ℕ)
      → any (stays rt m) vs ≡ false
      → stays rt m (or_else rt.nan (get_elem? vs i)) ≡ false
  unfolding any stays
  none_stays o [] i h = rw o.nan_ne refl
  none_stays o (v ∷ vs) zero h = ground arith
  none_stays o (v ∷ vs) (suc i) h = none_stays o vs i (ground arith)

  any-filter :
      (o : IsFloatOrder rt) (vs : List ℕ)
      → any (stays rt m) (filter_values rt m vs) ≡ any (stays rt m) vs
  unfolding any filter_values stays
  any-filter o [] = refl
  any-filter o (v ∷ vs) = ground (arith, any-filter o vs, o.nan_ne)

  values-filter :
      (o : IsFloatOrder rt) (found : Option TimeSeries) (i : ℕ)
      → or_else rt.nan (values_of (filter_found found) i) ≡ (
          if stays rt m (or_else rt.nan (values_of found i))
          then or_else rt.nan (values_of found i)
          else rt.nan)
  unfolding filtered
  values-filter o none i = ground arith
  values-filter o (some s) i = elim (Bool-cases (any (stays rt m) s.values)) [
    | inl some' ↦ rw some' (get_elem?-filter s.values i)
    | inr none' ↦ rw (none', none_stays o s.values i none') refl
  ]

  left_stays :
      (o : IsFloatOrder rt) (found : Option TimeSeries) (s : TimeSeries)
      → filter_found found ≡ some s
      → any (stays rt m) s.values ≡ true
  unfolding filtered
  left_stays o none s e = absurd (cc)
  left_stays o (some t) s e = elim (Bool-cases (any (stays rt m) t.values)) [
    | inl some' ↦
        let e' : some (filtered t) ≡ some s = (rw some' at e) in
        let same : filtered t ≡ s = cc (e') in
        ap (λ (x : TimeSeries). any (stays rt m) x.values) (sym same)
        ∙ (any-filter o t.values ∙ some')
    | inr none' ↦ let e' : none ≡ some s = (rw none' at e) in absurd (cc (e'))
  ]

  pub filter-HasUniqueKeys :
      (input : SeriesSet) → HasUniqueKeys input → HasUniqueKeys (process_filter rt m input)
  unfolding process_filter
  filter-HasUniqueKeys [] u = tt
  filter-HasUniqueKeys ((k, s) ∷ rest) (n, u) = elim (Bool-cases (any (stays rt m) s.values)) [
    | inl some' ↦ rw some' (find-filter k rest u ∙ ap filter_found n, filter-HasUniqueKeys rest u)
    | inr none' ↦ rw none' (filter-HasUniqueKeys rest u)
  ]

-- For a set of series with each key once, where a NaN does not equal itself: a value that the filter's
-- comparison holds of, and that is no NaN, stays; every other becomes NaN. A series that is left has a
-- value that stayed, and no key is repeated.
pub process_filter_lem :
    (rt : Runtime) (m : MetricsFilter) (input : SeriesSet)
    → IsFloatOrder rt
    → HasUniqueKeys input
    → ((k : SeriesMapKey) (i : ℕ)
        → cell rt.nan k i (process_filter rt m input) ≡ (
            if not (is_nan rt (cell rt.nan k i input)) && compare_value rt m (cell rt.nan k i input)
            then cell rt.nan k i input
            else rt.nan))
      × ((k : SeriesMapKey) (s : TimeSeries)
          → find k (process_filter rt m input) ≡ some s
          → any (stays rt m) s.values ≡ true)
      × HasUniqueKeys (process_filter rt m input)
unfolding cell stays
process_filter_lem rt m input o u = (
  λ k i.
      ap (or_else rt.nan) (
        value_of-find k i (process_filter rt m input)
        ∙ ap (λ f. values_of f i) (find-filter rt m k input u))
      ∙ (values-filter rt m o (find k input) i
          ∙ ap (λ v. if stays rt m (or_else rt.nan v) then or_else rt.nan v else rt.nan)
              (sym (value_of-find k i input))),
  λ k s e. left_stays rt m o (find k input) s (sym (find-filter rt m k input u) ∙ e),
  filter-HasUniqueKeys rt m input u,
)
