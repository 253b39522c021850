-- ===== src/Series/Top/Recorded.antt =====
-- What the loop that empties the heap writes into the result.
use traceql_syntax.Base.{
  get_elem?-set, ℕ, zero, suc, ◌<◌, true, ◌&&◌, List, [], ◌∷◌, some, length, All, get_elem?, set,
  length-set, ◌==◌, if◌then◌else◌, ◌≡◌, refl, sym, ap, ap₂, ◌∙◌, arith, Bool-cases, Option-cases,
  inl, inr,
}
use traceql_syntax.Runtime.{Runtime}
use traceql_syntax.Series.{SeriesMapKey, TimeSeries, SeriesSet, series_key_eq, find, put}
use traceql_syntax.Series.Maps.{series_key_eq_sound, find-put}
use traceql_syntax.Series.Top.{SeriesValue, all_nan, value_of, init_series, record_points}
use traceql_syntax.Series.Top.Kept.{or_else, cell, is_kept, HasValue, HasLength}

length-all_nan : (nan n : ℕ) → length (all_nan nan n) ≡ n
unfolding all_nan
length-all_nan nan zero = refl
length-all_nan nan (suc n) = ap suc (length-all_nan nan n)

get_elem?-all_nan : (nan n i : ℕ) → i < n → get_elem? (all_nan nan n) i ≡ some nan
unfolding all_nan
get_elem?-all_nan nan zero i h = absurd (omega arith)
get_elem?-all_nan nan (suc n) zero h = refl
get_elem?-all_nan nan (suc n) (suc i) h = get_elem?-all_nan nan n i (omega arith)

get_elem?_within :
    (xs : List ℕ) (i nan : ℕ) → i < length xs → get_elem? xs i ≡ some (or_else nan (get_elem? xs i))
get_elem?_within [] i nan h = absurd (omega arith)
get_elem?_within (x ∷ xs) zero nan h = refl
get_elem?_within (x ∷ xs) (suc i) nan h = get_elem?_within xs i nan (omega arith)

HasLength-put :
    (k : SeriesMapKey) (s : TimeSeries) (len : ℕ) (r : SeriesSet)
    → length s.values ≡ len
    → HasLength len r
    → HasLength len (put k s r)
unfolding HasLength
HasLength-put k s len r size h j t e =
    let e' : (if series_key_eq j k then some s else find j r) ≡ some t =
      sym (find-put j k s r) ∙ e in
    elim (Bool-cases (series_key_eq j k)) [
      | inl same ↦
          let f : some s ≡ some t = (rw same at e') in
          let g : s ≡ t = cc in ap (λ (u : TimeSeries). length u.values) (sym g) ∙ size
      | inr other ↦ h j t (rw other at e')
    ]

cell-put :
    (nan : ℕ) (j k : SeriesMapKey) (s : TimeSeries) (i : ℕ) (r : SeriesSet)
    → cell nan j i (put k s r)
      ≡ (if series_key_eq j k then or_else nan (get_elem? s.values i) else cell nan j i r)
unfolding cell value_of
cell-put nan j k s i r = elim (Bool-cases (series_key_eq j k)) [
  | inl same ↦
      let e : find j (put k s r) ≡ some s = find-put j k s r ∙ rw same refl in
      rw (same, e, value_of) refl
  | inr other ↦
      let e : find j (put k s r) ≡ find j r = find-put j k s r ∙ rw other refl in
      rw (other, e, value_of) refl
]

module _ (rt : Runtime) where
  -- The series that a value is written into has the values of the result so far.
  init_series_lem :
      (k : SeriesMapKey) (input : SeriesSet) (len : ℕ) (result : SeriesSet)
      → HasLength len result
      → (length ((init_series rt k input len result).values) ≡ len)
        × ((i : ℕ)
            → i < len
            → get_elem? ((init_series rt k input len result).values) i
              ≡ some (cell rt.nan k i result))
  unfolding HasLength init_series cell value_of
  init_series_lem k input len result h = elim (Option-cases (find k result)) [
    | inr (s, e) ↦
        let size = h k s e in
        rw (e, init_series, value_of)
          (size, λ i j. get_elem?_within s.values i rt.nan (omega (arith, size, j)))
    | inl n ↦ elim (Option-cases (find k input)) [
      | inl m ↦
          rw (n, m, init_series, value_of)
            (length-all_nan rt.nan len, λ i j. get_elem?-all_nan rt.nan len i j)
      | inr (s, e) ↦
          rw (n, e, init_series, value_of)
            (length-all_nan rt.nan len, λ i j. get_elem?-all_nan rt.nan len i j)
    ]
  ]

  -- A series with a value written into it.
  abbrev recorded : SeriesMapKey → ℕ → ℕ → SeriesSet → ℕ → SeriesSet → SeriesSet
  recorded k n v input len result =
      let s = init_series rt k input len result in
      put k (record s { values = set s.values n v }) result

  recorded-HasLength :
      (k : SeriesMapKey) (n v : ℕ) (input : SeriesSet) (len : ℕ) (result : SeriesSet)
      → HasLength len result
      → HasLength len (recorded k n v input len result)
  recorded-HasLength k n v input len result h =
      let (size, _) = init_series_lem k input len result h in
      HasLength-put k _ len result (length-set _ n v ∙ size) h

  cell-recorded :
      (k : SeriesMapKey) (n v : ℕ) (input : SeriesSet) (len : ℕ) (result : SeriesSet)
      → HasLength len result
      → n < len
      → (j : SeriesMapKey) (i : ℕ) → i < len
      → cell rt.nan j i (recorded k n v input len result)
        ≡ (if i == n && series_key_eq j k then v else cell rt.nan j i result)
  unfolding cell value_of
  cell-recorded k n v input len result h m j i l =
      let (size, values) = init_series_lem k input len result h in
      let old = (init_series rt k input len result).values in
      let put' =
        cell-put rt.nan j k (record (init_series rt k input len result) { values = set old n v }) i
          result in
      let written = get_elem?-set old n v i (omega (arith, size, m)) in
      elim (Bool-cases (series_key_eq j k)) [
        | inr other ↦ put' ∙ ground (arith, other)
        | inl same ↦
            let same' = series_key_eq_sound j k same in
            put'
            ∙ rw (same, written)
                (elim (Bool-cases (i == n)) [
                  | inl here ↦ rw here refl
                  | inr elsewhere ↦
                      rw (elsewhere, values i l) (ap (λ h. cell rt.nan h i result) (sym same'))
                ])
      ]

  own_value :
      (input : SeriesSet) (n : ℕ) (p : SeriesValue) (j : SeriesMapKey) (i : ℕ)
      → HasValue input n p
      → i ≡ n
      → series_key_eq j p.key ≡ true
      → cell rt.nan j i input ≡ p.value
  unfolding HasValue cell
  own_value input n p j i h e same =
      let k = series_key_eq_sound j p.key same in
      ap₂ (λ k i. or_else rt.nan (value_of k i input)) k e ∙ ap (or_else rt.nan) h

  -- After the heap is emptied: the values of the time that were kept, and the others as before.
  pub record_points-cell :
      (input : SeriesSet) (len n : ℕ) (ps : List SeriesValue) (result : SeriesSet)
      → All (HasValue input n) ps
      → HasLength len result
      → n < len
      → (r : SeriesSet) × (record_points rt input len n ps result ≡ some r)
        × HasLength len r
        × ((j : SeriesMapKey) (i : ℕ)
            → i < len
            → cell rt.nan j i r
              ≡ (if i == n && is_kept j ps then cell rt.nan j i input else cell rt.nan j i result))
  unfolding record_points HasValue is_kept
  record_points-cell input len n [] result hs size below =
      (result, refl, size, λ j i l. ground arith)
  record_points-cell input len n (p ∷ ps) result (h, hs) size below =
      let next = recorded p.key n p.value input len result in
      let (r, e, size', cells) =
        record_points-cell input len n ps next hs
          (recorded-HasLength p.key n p.value input len result size) below in
      (
        r,
        rw (h, record_points) e,
        size',
        λ j i l.
            cells j i l
            ∙ ground (
              arith,
              cell-recorded p.key n p.value input len result size below j i l,
              own_value input n p j i h,
            ),
      )
