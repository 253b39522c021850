-- ===== src/Series/Stages/WellSets.antt =====
-- The sets of series that the second stages build are well-formed.
use traceql_syntax.Base.{
  ℕ, zero, suc, ◌+◌, ◌≤◌, Bool, not, List, [], ◌∷◌, select, All, length, length-select-le, Option,
  none, some, Text, min, leb, ◌≡◌, refl, ap, arith, Bool-cases, Option-cases, inl, inr, list_eq,
  get_elem?,
}
use mathlib.Core.Path.{subst}
use mathlib.Core.Option.{some-injective}
use traceql_syntax.Runtime.{Runtime}
use traceql_syntax.Operator.{Operator}
use traceql_syntax.Series.{
  SeriesMapKey, SeriesSet, SeriesMapLabel, max_group_bys, no_label, no_labels_series_map_key,
  fill_key, get_value, find, put,
}
use traceql_syntax.Series.Maps.{IsWellSet, HaveKeys, put-IsWellSet}
use traceql_syntax.Series.Queue.{offer_all, offer_all-All}
use traceql_syntax.Series.Top.{
  SeriesValue, value_of, add_point, points, record_points, process_times,
}
use traceql_syntax.Series.Math.{
  match_both, combine_series, combine_all, values_len, target, apply_binary_op,
}
use traceql_syntax.Series.Math.Matched.{apply_binary_op_lem}
use traceql_syntax.Series.Stages.{
  query_fragment, is_of_leaf, without_fragment, key_without_fragment, leaf_series,
}

HasKeyLength : SeriesValue → Type 0
HasKeyLength p = length p.key ≡ max_group_bys

fill_key_lem :
    (n : ℕ) (k : SeriesMapKey)
    → length k ≤ n
    → (r : SeriesMapKey) × (fill_key n k ≡ some r) × (length r ≡ n)
unfolding fill_key
fill_key_lem zero [] h = ([], refl, refl)
fill_key_lem zero (l ∷ k) h = absurd (omega arith)
fill_key_lem (suc n) [] h =
    let (r, e, size) = fill_key_lem n [] (omega arith) in
    (no_label ∷ r, rw (e, fill_key) refl, ap suc size)
fill_key_lem (suc n) (l ∷ k) h =
    let (r, e, size) = fill_key_lem n k (omega arith) in (l ∷ r, rw (e, fill_key) refl, ap suc size)

target-HaveKeys : (lhs rhs : SeriesSet) → HaveKeys lhs → HaveKeys rhs → HaveKeys (target lhs rhs)
unfolding target
target-HaveKeys lhs rhs u v = elim (Option-cases (find no_labels_series_map_key rhs)) [
  | inl n ↦ rw (n, target) v
  | inr (s, e) ↦ rw (e, target) u
]

pub empty-IsWellSet : IsWellSet []
empty-IsWellSet = record { unique = tt; keys = tt }

module _ (rt : Runtime) where
  add_point-HasKeyLength :
      (k : SeriesMapKey) (o : Option ℕ) (others : List SeriesValue)
      → length k ≡ max_group_bys
      → All HasKeyLength others
      → All HasKeyLength (add_point rt k o others)
  unfolding add_point HasKeyLength
  add_point-HasKeyLength k none others e hs = hs
  add_point-HasKeyLength k (some v) others e hs = elim (Bool-cases (rt.f_eq v v)) [
    | inl number ↦ rw number (e, hs)
    | inr nan ↦ rw nan hs
  ]

  points-HasKeyLength :
      (i : ℕ) (input : SeriesSet) → HaveKeys input → All HasKeyLength (points rt i input)
  unfolding points
  points-HasKeyLength i [] h = tt
  points-HasKeyLength i ((k, s) ∷ rest) (h, hs) =
      add_point-HasKeyLength k (get_elem? s.values i) (points rt i rest) h
        (points-HasKeyLength i rest hs)

  record_points-IsWellSet :
      (input : SeriesSet) (len i : ℕ) (ps : List SeriesValue) (result r : SeriesSet)
      → All HasKeyLength ps
      → IsWellSet result
      → record_points rt input len i ps result ≡ some r
      → IsWellSet r
  unfolding record_points HasKeyLength
  record_points-IsWellSet input len i [] result r hs w e =
      subst IsWellSet (some-injective result r e) w
  record_points-IsWellSet input len i (p ∷ ps) result r (h, hs) w e =
      elim (Option-cases (value_of p.key i input)) [
        | inl n ↦ let e' : none ≡ some r = (rw (n, record_points) at e) in absurd (cc (e'))
        | inr (v, f) ↦
            record_points-IsWellSet input len i ps _ r hs (put-IsWellSet p.key _ result h w)
              (rw (f, record_points) at e)
      ]

  pub process_times-IsWellSet :
      (less greater : SeriesValue → SeriesValue → Bool) (input : SeriesSet) (len limit i n : ℕ)
      (result r : SeriesSet)
      → HaveKeys input
      → IsWellSet result
      → process_times rt less greater input len limit i n result ≡ some r
      → IsWellSet r
  unfolding process_times
  process_times-IsWellSet less greater input len limit i zero result r h w e =
      subst IsWellSet (some-injective result r e) w
  process_times-IsWellSet less greater input len limit i (suc n) result r h w e =
      elim (Option-cases (offer_all less greater limit (points rt i input) [])) [
        | inl none' ↦ let e' : none ≡ some r = (rw (none', process_times) at e) in absurd (cc (e'))
        | inr (kept, f) ↦ elim (Option-cases (record_points rt input len i kept result)) [
          | inl none' ↦
              let e' : none ≡ some r = (rw (f, none', process_times) at e) in absurd (cc (e'))
          | inr (result', g) ↦
              let keys =
                offer_all-All less greater limit HasKeyLength (points rt i input) [] kept
                  (points-HasKeyLength i input h) tt f in
              process_times-IsWellSet less greater input len limit (suc i) n result' r h
                (record_points-IsWellSet input len i kept result result' keys w g)
                (rw (f, g, process_times) at e)
        ]
      ]

  module _ (decimal : ℕ → Text) (metric_name : Text) (zero_value : ℕ) where
    combine_all-IsWellSet :
        (op : Operator) (lhs rhs : SeriesSet) (size : ℕ) (rest : SeriesSet) (offset : ℕ)
        (result r : SeriesSet)
        → HaveKeys rest
        → IsWellSet result
        → combine_all rt decimal metric_name zero_value op lhs rhs size rest offset result ≡ some r
        → IsWellSet r
    unfolding combine_all
    combine_all-IsWellSet op lhs rhs size [] offset result r h w e =
        subst IsWellSet (some-injective result r e) w
    combine_all-IsWellSet op lhs rhs size ((k, t) ∷ rest) offset result r (h, hs) w e =
        elim (Option-cases (match_both lhs rhs k)) [
          | inl n ↦
              combine_all-IsWellSet op lhs rhs size rest offset result r hs w
                (rw (n, combine_all) at e)
          | inr ((a, b), m) ↦
              let n = min (length (b.0).values) (length (a.0).values) in
              elim (Bool-cases (leb (offset + n) size)) [
                | inl fits ↦
                    combine_all-IsWellSet op lhs rhs size rest (offset + n) _ r hs
                      (put-IsWellSet k (combine_series rt decimal metric_name zero_value op a b)
                        result h w)
                      (rw (m, fits, combine_all) at e)
                | inr beyond ↦
                    let e' : none ≡ some r = (rw (m, beyond, combine_all) at e) in absurd (cc (e'))
              ]
        ]

    pub apply_binary_op-total :
        (op : Operator) (lhs rhs : SeriesSet)
        → IsWellSet lhs
        → IsWellSet rhs
        → (r : SeriesSet) × (apply_binary_op rt decimal metric_name zero_value op lhs rhs ≡ some r)
          × IsWellSet r
    unfolding apply_binary_op
    apply_binary_op-total op lhs rhs v w =
        let (r, e, _) =
          apply_binary_op_lem rt decimal metric_name zero_value op lhs rhs v.unique w.unique in
        (
          r,
          e,
          combine_all-IsWellSet op lhs rhs (values_len (target lhs rhs)) (target lhs rhs) 0 [] r
              (target-HaveKeys lhs rhs v.keys w.keys) empty-IsWellSet e,
        )

key_without_fragment_lem :
    (k : SeriesMapKey)
    → length k ≡ max_group_bys
    → (r : SeriesMapKey) × (key_without_fragment k ≡ some r) × (length r ≡ max_group_bys)
unfolding key_without_fragment
key_without_fragment_lem k e =
    fill_key_lem max_group_bys (select (λ l. not (list_eq l.name query_fragment)) k) (
      omega
        (arith, length-select-le (λ (l : SeriesMapLabel). not (list_eq l.name query_fragment)) k))

pub leaf_series-total :
    (key : Text) (input result : SeriesSet)
    → HaveKeys input
    → IsWellSet result
    → (r : SeriesSet) × (leaf_series key input result ≡ some r) × IsWellSet r
unfolding leaf_series
leaf_series-total key [] result h w = (result, refl, w)
leaf_series-total key ((k, s) ∷ rest) result (h, hs) w =
    elim (Bool-cases (is_of_leaf key (get_value query_fragment s.labels))) [
      | inl own ↦
          let (k', e, size) = key_without_fragment_lem k h in
          let (r, done, well) =
            leaf_series-total key rest
              (put k' (record s { labels = without_fragment s.labels }) result) hs
              (put-IsWellSet k' (record s { labels = without_fragment s.labels }) result size w) in
          (r, rw (own, e, leaf_series) done, well)
      | inr foreign ↦
          let (r, done, well) = leaf_series-total key rest result hs w in
          (r, rw (foreign, leaf_series) done, well)
    ]
