-- ===== src/Series/Math/Sides.antt =====
-- The keys and the sides that the arithmetic between two sets goes by, described apart from its code.
use traceql_syntax.Base.{Bool, true, false, none, some, ◌≡◌, refl, Option-cases, ◌⊎◌, inl, inr}
use traceql_syntax.Series.{TimeSeries, SeriesMapKey, SeriesSet, no_labels_series_map_key, find}
use traceql_syntax.Series.Math.{get_ts_match, match_both, target}

-- The series of a set for a key, or else the one without labels.
abbrev pub IsSide : SeriesSet → SeriesMapKey → TimeSeries → Type 0
IsSide set k t =
    (find k set ≡ some t) ⊎ ((find k set ≡ none) × (find no_labels_series_map_key set ≡ some t))

abbrev pub HasNoSide : SeriesSet → SeriesMapKey → Type 0
HasNoSide set k = (find k set ≡ none) × (find no_labels_series_map_key set ≡ none)

-- The result has the keys of the left set if the right one has a series without labels, and else those
-- of the right set.
abbrev pub IsKey : SeriesSet → SeriesSet → SeriesMapKey → Type 0
IsKey lhs rhs k =
    ((t : TimeSeries) × (u : TimeSeries) × (find no_labels_series_map_key rhs ≡ some u)
      × (find k lhs ≡ some t))
    ⊎ ((t : TimeSeries) × (find no_labels_series_map_key rhs ≡ none) × (find k rhs ≡ some t))

abbrev pub IsNoKey : SeriesSet → SeriesSet → SeriesMapKey → Type 0
IsNoKey lhs rhs k =
    ((u : TimeSeries) × (find no_labels_series_map_key rhs ≡ some u) × (find k lhs ≡ none))
    ⊎ ((find no_labels_series_map_key rhs ≡ none) × (find k rhs ≡ none))

side_match :
    (set : SeriesSet) (k : SeriesMapKey) (t : TimeSeries)
    → IsSide set k t
    → (f : Bool) × (get_ts_match set k ≡ some (t, f))
unfolding get_ts_match
side_match set k t (inl e) = (false, rw (e, get_ts_match) refl)
side_match set k t (inr (n, e)) = (true, rw (n, e, get_ts_match) refl)

no_side_match : (set : SeriesSet) (k : SeriesMapKey) → HasNoSide set k → get_ts_match set k ≡ none
unfolding get_ts_match
no_side_match set k (n, m) = rw (n, m, get_ts_match) refl

pub both_match :
    (lhs rhs : SeriesSet) (k : SeriesMapKey) (a b : TimeSeries)
    → IsSide lhs k a
    → IsSide rhs k b
    → (f g : Bool) × (match_both lhs rhs k ≡ some ((a, f), (b, g)))
unfolding match_both
both_match lhs rhs k a b h i =
    let (f, e) = side_match lhs k a h in
    let (g, e') = side_match rhs k b i in (f, g, rw (e, e', match_both) refl)

pub no_match :
    (lhs rhs : SeriesSet) (k : SeriesMapKey)
    → HasNoSide lhs k ⊎ HasNoSide rhs k
    → match_both lhs rhs k ≡ none
unfolding match_both
no_match lhs rhs k (inl h) = rw (no_side_match lhs k h, match_both) refl
no_match lhs rhs k (inr h) = elim (Option-cases (get_ts_match lhs k)) [
  | inl n ↦ rw (n, match_both) refl
  | inr (l, e) ↦ rw (e, no_side_match rhs k h, match_both) refl
]

pub key_target :
    (lhs rhs : SeriesSet) (k : SeriesMapKey)
    → IsKey lhs rhs k
    → (t : TimeSeries) × (find k (target lhs rhs) ≡ some t)
unfolding target
key_target lhs rhs k (inl (t, u, e, f)) = (t, rw (e, target) f)
key_target lhs rhs k (inr (t, n, f)) = (t, rw (n, target) f)

pub no_key_target :
    (lhs rhs : SeriesSet) (k : SeriesMapKey) → IsNoKey lhs rhs k → find k (target lhs rhs) ≡ none
unfolding target
no_key_target lhs rhs k (inl (u, e, f)) = rw (e, target) f
no_key_target lhs rhs k (inr (n, f)) = rw (n, target) f
