-- ===== src/Grouping/Found.antt =====
-- The series that the values in the buffer lead to, by the last one or by the map.
use mathlib.Core.Path.{subst}
use traceql_syntax.Base.{
  List, Option, none, some, if◌then◌else◌, ◌≡◌, refl, ap, ◌∙◌, Bool-cases, Option-cases, inl, inr,
}
use traceql_syntax.Static.{Static}
use traceql_syntax.Grouping.{
  Config, FastStatic, AggregatorWithValues, GroupingAggregator, fast_eq, find_group, find_or_create,
  get_series_slowly, get_series,
}
use traceql_syntax.Grouping.Stored.{
  fast_eq_sound, fast_eq_self, get_elem?-within, state_of, IsShared, state_of-some, state_of-none,
  fresh, created, created-IsShared, created-state_of,
}

-- The state of a series, or that of a new one with the values.
abbrev pub or_new :
    {S R : Type 0} → Config S R → List Static → Option (R × List Static) → R × List Static
or_new c vals none = (c.inner_agg.create, vals)
or_new c vals (some x) = x

-- The series of the buffer, which is a new one if there was none; the others are as they were.
pub record IsFoundIn {S R : Type 0} (c : Config S R) (g g' : GroupingAggregator R)
    (s : AggregatorWithValues) : Type 0 where
  pub shared : IsShared g'
  pub found : find_group g.buf.fast g'.series ≡ some s
  pub same_buf : g'.buf ≡ g.buf
  pub state :
      (k : FastStatic)
      → state_of k g'
        ≡ (if fast_eq g.buf.fast k then some (or_new c g.buf.vals (state_of k g)) else state_of k g)

module _ {S R : Type 0} (c : Config S R) (g : GroupingAggregator R) (h : IsShared g) where
  state_of-found :
      (s : AggregatorWithValues)
      → find_group g.buf.fast g.series ≡ some s
      → (k : FastStatic)
      → state_of k g
        ≡ (if fast_eq g.buf.fast k then some (or_new c g.buf.vals (state_of k g)) else state_of k g)
  state_of-found s found k = elim (Bool-cases (fast_eq g.buf.fast k)) [
    | inl same ↦
        let (r, at) = get_elem?-within g.store s.agg (h.valid g.buf.fast s found) in
        let key = fast_eq_sound g.buf.fast k same in
        let state =
          state_of-some k g s r (subst (λ l. find_group l g.series ≡ some s) key found) at in
        rw same (rw state refl)
    | inr other ↦ rw other refl
  ]

  created-or_new :
      (free : find_group g.buf.fast g.series ≡ none) (k : FastStatic)
      → state_of k (created c g h free)
        ≡ (if fast_eq g.buf.fast k then some (or_new c g.buf.vals (state_of k g)) else state_of k g)
  created-or_new free k = elim (Bool-cases (fast_eq g.buf.fast k)) [
    | inl same ↦
        let key = fast_eq_sound g.buf.fast k same in
        let none_yet = state_of-none k g (subst (λ l. find_group l g.series ≡ none) key free) in
        created-state_of c g h free k ∙ rw same (rw none_yet refl)
    | inr other ↦ created-state_of c g h free k ∙ rw other refl
  ]

  old-IsFoundIn :
      (s : AggregatorWithValues) → find_group g.buf.fast g.series ≡ some s → IsFoundIn c g g s
  old-IsFoundIn s found = record {
    shared = h;
    found = found;
    same_buf = refl;
    state = state_of-found s found;
  }

  find_or_create_lem :
      (g' : GroupingAggregator R) × (s : AggregatorWithValues) × (find_or_create c g ≡ (g', s))
      × IsFoundIn c g g' s
  unfolding find_or_create find_group
  find_or_create_lem = elim (Option-cases (find_group g.buf.fast g.series)) [
    | inl free ↦ (
      created c g h free,
      fresh c g h free,
      rw (find_or_create, free) refl,
      record {
        shared = created-IsShared c g h free;
        found = rw (fast_eq_self g.buf.fast) refl;
        same_buf = refl;
        state = created-or_new free;
      },
    )
    | inr (s, old) ↦ (g, s, rw (find_or_create, old) refl, old-IsFoundIn s old)
  ]

  get_series_slowly_lem :
      (g' : GroupingAggregator R) × (s : AggregatorWithValues) × (get_series_slowly c g ≡ (g', s))
      × IsFoundIn c g g' s
  unfolding get_series_slowly state_of
  get_series_slowly_lem =
      let (g', s, ran, is) = find_or_create_lem in
      (
        record g' { last_buf = g'.buf; last_series = some s },
        s,
        rw ran refl,
        record {
          shared = record {
            valid = is.shared.valid;
            apart = is.shared.apart;
            last = λ t e. ap (λ b. find_group b.fast g'.series) is.same_buf ∙ (is.found ∙ e);
          };
          found = is.found;
          same_buf = is.same_buf;
          state = is.state;
        },
      )

  pub get_series_lem :
      (g' : GroupingAggregator R) × (s : AggregatorWithValues) × (get_series c g ≡ (g', s))
      × IsFoundIn c g g' s
  unfolding get_series
  get_series_lem = elim (Option-cases g.last_series) [
    | inl no_last ↦
        let (g', s, ran, is) = get_series_slowly_lem in (g', s, rw (get_series, no_last) ran, is)
    | inr (s, was_last) ↦ elim (Bool-cases (fast_eq g.last_buf.fast g.buf.fast)) [
      | inl same ↦
          let key = fast_eq_sound g.last_buf.fast g.buf.fast same in
          (
            g,
            s,
            rw (get_series, was_last, same) (λ j. (record g { last_series = was_last j }, s)),
            old-IsFoundIn s (subst (λ l. find_group l g.series ≡ some s) key (h.last s was_last)),
          )
      | inr other ↦
          let (g', s, ran, is) = get_series_slowly_lem in
          (g', s, rw (get_series, was_last, other) ran, is)
    ]
  ]
