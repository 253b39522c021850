-- ===== src/Series/Top/Kept.antt =====
-- What the loops of topk and bottomk leave in each series.
use traceql_syntax.Base.{
  ℕ, Bool, true, List, [], ◌∷◌, Option, none, some, length, All, any, get_elem?, if◌then◌else◌, ◌≡◌,
  refl, ap, ◌∙◌, Bool-cases, inl, inr,
}
use traceql_syntax.Runtime.{Runtime}
use traceql_syntax.Series.{SeriesMapKey, TimeSeries, SeriesSet, series_key_eq, find}
use traceql_syntax.Series.Maps.{HasUniqueKeys, series_key_eq_sound, series_key_eq_self}
use traceql_syntax.Series.Top.{SeriesValue, value_of, add_point, points}
use traceql_syntax.Series.Top.Ranked.{IsNumber}

abbrev pub or_else : ℕ → Option ℕ → ℕ
or_else d none = d
or_else d (some v) = v

-- The value of a series at a time, and NaN where there is none.
unfoldable pub cell : ℕ → SeriesMapKey → ℕ → SeriesSet → ℕ
unfolding value_of
cell nan k i r = or_else nan (value_of k i r)

unfoldable pub is_kept : SeriesMapKey → List SeriesValue → Bool
unfolding any
is_kept k ps = any (λ p. series_key_eq k p.key) ps

unfoldable pub HasValue : SeriesSet → ℕ → SeriesValue → Type 0
HasValue input i p = value_of p.key i input ≡ some p.value

-- All series have the length.
unfoldable pub HasLength : ℕ → SeriesSet → Type 0
HasLength len r = (k : SeriesMapKey) (s : TimeSeries) → find k r ≡ some s → length s.values ≡ len

module _ (rt : Runtime) where
  add_point-All :
      (Q : SeriesValue → Type 0) (k : SeriesMapKey) (o : Option ℕ) (others : List SeriesValue)
      → ((v : ℕ) → o ≡ some v → rt.f_eq v v ≡ true → Q (record { key = k; value = v }))
      → All Q others
      → All Q (add_point rt k o others)
  unfolding add_point
  add_point-All Q k none others h hs = hs
  add_point-All Q k (some v) others h hs = elim (Bool-cases (rt.f_eq v v)) [
    | inl number ↦ rw number (h v refl number, hs)
    | inr nan ↦ rw nan hs
  ]

  pub points-IsNumber : (i : ℕ) (input : SeriesSet) → All (IsNumber rt) (points rt i input)
  unfolding points
  points-IsNumber i [] = tt
  points-IsNumber i ((k, s) ∷ rest) =
      add_point-All (IsNumber rt) k (get_elem? s.values i) (points rt i rest) (λ v e number. number)
        (points-IsNumber i rest)

  value_of_cons :
      (i : ℕ) (k j : SeriesMapKey) (s : TimeSeries) (rest : SeriesSet)
      → value_of j i ((k, s) ∷ rest)
        ≡ (if series_key_eq j k then get_elem? s.values i else value_of j i rest)
  unfolding value_of find
  value_of_cons i k j s rest = elim (Bool-cases (series_key_eq j k)) [
    | inl same ↦ rw (same, value_of) refl
    | inr other ↦ rw (other, value_of) refl
  ]

  HasValue-later :
      (i : ℕ) (k : SeriesMapKey) (s : TimeSeries) (rest : SeriesSet) (p : SeriesValue)
      → find k rest ≡ none
      → HasValue rest i p
      → HasValue ((k, s) ∷ rest) i p
  unfolding HasValue value_of
  HasValue-later i k s rest p n h = elim (Bool-cases (series_key_eq p.key k)) [
    | inl same ↦
        let e : find p.key rest ≡ none =
          ap (λ j. find j rest) (series_key_eq_sound p.key k same) ∙ n in
        absurd (cc (e, h))
    | inr other ↦ value_of_cons i k p.key s rest ∙ rw other h
  ]

  All-have_later :
      (i : ℕ) (k : SeriesMapKey) (s : TimeSeries) (rest : SeriesSet) (ps : List SeriesValue)
      → find k rest ≡ none
      → All (HasValue rest i) ps
      → All (HasValue ((k, s) ∷ rest) i) ps
  All-have_later i k s rest [] n h = tt
  All-have_later i k s rest (p ∷ ps) n (h, hs) =
      (HasValue-later i k s rest p n h, All-have_later i k s rest ps n hs)

  pub points-HasValue :
      (i : ℕ) (input : SeriesSet) → HasUniqueKeys input → All (HasValue input i) (points rt i input)
  unfolding points HasValue
  points-HasValue i [] u = tt
  points-HasValue i ((k, s) ∷ rest) (n, u) =
      add_point-All (HasValue ((k, s) ∷ rest) i) k (get_elem? s.values i) (points rt i rest)
        (λ v e number. value_of_cons i k k s rest ∙ rw (series_key_eq_self k) e)
        (All-have_later i k s rest (points rt i rest) n (points-HasValue i rest u))
