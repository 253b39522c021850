-- ===== src/Series/Math/Matched.antt =====
-- Which series the arithmetic between two sets combines, and that its buffer is large enough.
use traceql_syntax.Base.{
  ℕ, zero, suc, ◌+◌, ◌≤◌, Bool, true, false, List, [], ◌∷◌, Option, none, some, Text, length,
  get_elem?, min, leb, if◌then◌else◌, ◌≡◌, refl, ap, ◌∙◌, arith, Bool-cases, Option-cases, ◌⊎◌, inl,
  inr,
}
use traceql_syntax.Runtime.{Runtime}
use traceql_syntax.Operator.{Operator}
use traceql_syntax.Series.{
  TimeSeries, SeriesMapKey, SeriesSet, no_labels_series_map_key, series_key_eq, find, put,
}
use traceql_syntax.Series.Maps.{
  series_key_eq_sound, find-put, HasUniqueKeys, AllFound, unique-AllFound,
}
use traceql_syntax.Series.Math.{
  get_ts_match, match_both, apply_arithmetic_op, combine_values, combine_series, combine_all,
  values_len, target, apply_binary_op,
}
use traceql_syntax.Series.Math.Sides.{
  IsSide, HasNoSide, IsKey, IsNoKey, both_match, no_match, key_target, no_key_target,
}

-- The smaller of both lengths is at most that of the series of the target.
abbrev Fits : SeriesSet → SeriesSet → SeriesSet → Type 0
Fits lhs rhs set =
    (k : SeriesMapKey) (t : TimeSeries) (l r : TimeSeries × Bool)
    → find k set ≡ some t
    → match_both lhs rhs k ≡ some (l, r)
    → min (length (r.0).values) (length (l.0).values) ≤ length t.values

match_left :
    (lhs rhs : SeriesSet) (k : SeriesMapKey) (l r : TimeSeries × Bool)
    → match_both lhs rhs k ≡ some (l, r)
    → (get_ts_match lhs k ≡ some l) × (get_ts_match rhs k ≡ some r)
unfolding match_both
match_left lhs rhs k l r e = elim (Option-cases (get_ts_match lhs k)) [
  | inl n ↦
      let bad : ◌≡◌ {A = Option ((TimeSeries × Bool) × (TimeSeries × Bool))} none (some (l, r)) =
        (rw (n, match_both) at e) in
      absurd (cc (bad))
  | inr (a, f) ↦ elim (Option-cases (get_ts_match rhs k)) [
    | inl n ↦
        let bad : ◌≡◌ {A = Option ((TimeSeries × Bool) × (TimeSeries × Bool))} none (some (l, r)) =
          (rw (f, n, match_both) at e) in
        absurd (cc (bad))
    | inr (b, g) ↦
        let both : ◌≡◌ {A = Option ((TimeSeries × Bool) × (TimeSeries × Bool))} (some (a, b))
            (some (l, r)) =
          (rw (f, g, match_both) at e) in
        (cc (both), cc (both))
  ]
]

found_match :
    (set : SeriesSet) (k : SeriesMapKey) (t : TimeSeries) (m : TimeSeries × Bool)
    → find k set ≡ some t
    → get_ts_match set k ≡ some m
    → m.0 ≡ t
unfolding get_ts_match
found_match set k t m e f = let g : some (t, false) ≡ some m = (rw (e, get_ts_match) at f) in cc (g)

left-Fits : (lhs rhs : SeriesSet) → Fits lhs rhs lhs
left-Fits lhs rhs k t l r e f =
    let same : l.0 ≡ t = found_match lhs k t l e (match_left lhs rhs k l r f).0 in
    let size : length (l.0).values ≡ length t.values =
      ap (λ (s : TimeSeries). length s.values) same in
    omega (arith, size)

right-Fits : (lhs rhs : SeriesSet) → Fits lhs rhs rhs
right-Fits lhs rhs k t l r e f =
    let same : r.0 ≡ t = found_match rhs k t r e (match_left lhs rhs k l r f).1 in
    let size : length (r.0).values ≡ length t.values =
      ap (λ (s : TimeSeries). length s.values) same in
    omega (arith, size)

target-Fits : (lhs rhs : SeriesSet) → Fits lhs rhs (target lhs rhs)
unfolding target
target-Fits lhs rhs = elim (Option-cases (find no_labels_series_map_key rhs)) [
  | inl n ↦ rw (n, target) (right-Fits lhs rhs)
  | inr (s, e) ↦ rw (e, target) (left-Fits lhs rhs)
]

target-HasUniqueKeys :
    (lhs rhs : SeriesSet) → HasUniqueKeys lhs → HasUniqueKeys rhs → HasUniqueKeys (target lhs rhs)
unfolding target
target-HasUniqueKeys lhs rhs u v = elim (Option-cases (find no_labels_series_map_key rhs)) [
  | inl n ↦ rw (n, target) v
  | inr (s, e) ↦ rw (e, target) u
]

abbrev or_old : Option TimeSeries → Option TimeSeries → Option TimeSeries
or_old none old = old
or_old (some s) old = some s

abbrev if_some : Option TimeSeries → Option TimeSeries → Option TimeSeries
if_some none new = none
if_some (some t) new = new

abbrev in_target : SeriesMapKey → SeriesSet → Option TimeSeries → Option TimeSeries
in_target k rest new = if_some (find k rest) new

in_target_cons :
    (j k : SeriesMapKey) (t : TimeSeries) (rest : SeriesSet) (new : Option TimeSeries)
    → in_target j ((k, t) ∷ rest) new ≡ (if series_key_eq j k then new else in_target j rest new)
unfolding find
in_target_cons j k t rest new = ground arith

in_target-none : (j : SeriesMapKey) (rest : SeriesSet) → in_target j rest none ≡ none
in_target-none j rest = ground arith

in_target_same :
    (j : SeriesMapKey) (rest : SeriesSet) (s : TimeSeries)
    → or_old (in_target j rest (some s)) (some s) ≡ some s
in_target_same j rest s = ground arith

-- One side's value for each time that both have.
abbrev pub PointwiseOf : (ℕ → ℕ → ℕ) → List ℕ → List ℕ → List ℕ → Type 0
PointwiseOf f xs ys zs =
    (i : ℕ)
    → get_elem? zs i ≡ elim (get_elem? xs i) [
      | none ↦ none
      | some x ↦ elim (get_elem? ys i) [ none ↦ none | some y ↦ some (f x y) ]
    ]

module _ (rt : Runtime) (decimal : ℕ → Text) (metric_name : Text) (zero_value : ℕ)
    (op : Operator) where
  combine_values_lem :
      (xs ys : List ℕ)
      → PointwiseOf
          (apply_arithmetic_op rt zero_value op)
          xs
          ys
          (combine_values rt zero_value op xs ys)
  unfolding combine_values
  combine_values_lem [] ys i = refl
  combine_values_lem (x ∷ xs) [] zero = refl
  combine_values_lem (x ∷ xs) [] (suc i) = ground arith
  combine_values_lem (x ∷ xs) (y ∷ ys) zero = refl
  combine_values_lem (x ∷ xs) (y ∷ ys) (suc i) = combine_values_lem xs ys i

  -- What the result has for a key of the target.
  abbrev combine_found : Option ((TimeSeries × Bool) × (TimeSeries × Bool)) → Option TimeSeries
  combine_found none = none
  combine_found (some (l, r)) = some (combine_series rt decimal metric_name zero_value op l r)

  abbrev combined : SeriesSet → SeriesSet → SeriesMapKey → Option TimeSeries
  combined lhs rhs k = combine_found (match_both lhs rhs k)

  -- One more key, which is not matched, or whose series is put into the result.
  skip_key :
      (lhs rhs : SeriesSet) (j k : SeriesMapKey) (t : TimeSeries) (rest result : SeriesSet)
      → match_both lhs rhs k ≡ none
      → or_old (in_target j rest (combined lhs rhs j)) (find j result)
        ≡ or_old (in_target j ((k, t) ∷ rest) (combined lhs rhs j)) (find j result)
  skip_key lhs rhs j k t rest result n = elim (Bool-cases (series_key_eq j k)) [
    | inr other ↦ rw (in_target_cons j k t rest (combined lhs rhs j), other) refl
    | inl same ↦
        let c : combined lhs rhs j ≡ none =
          ap (combined lhs rhs) (series_key_eq_sound j k same) ∙ ap combine_found n in
        rw (in_target_cons j k t rest (combined lhs rhs j), same, c, in_target-none j rest) refl
  ]

  put_key :
      (lhs rhs : SeriesSet) (j k : SeriesMapKey) (t : TimeSeries) (rest result : SeriesSet)
      (l r : TimeSeries × Bool)
      → match_both lhs rhs k ≡ some (l, r)
      → or_old
          (in_target j rest (combined lhs rhs j))
          (find j (put k (combine_series rt decimal metric_name zero_value op l r) result))
        ≡ or_old (in_target j ((k, t) ∷ rest) (combined lhs rhs j)) (find j result)
  put_key lhs rhs j k t rest result l r e =
      let s = combine_series rt decimal metric_name zero_value op l r in
      elim (Bool-cases (series_key_eq j k)) [
        | inr other ↦
            rw (in_target_cons j k t rest (combined lhs rhs j), find-put j k s result, other) refl
        | inl same ↦
            let c : combined lhs rhs j ≡ some s =
              ap (combined lhs rhs) (series_key_eq_sound j k same) ∙ ap combine_found e in
            rw (in_target_cons j k t rest (combined lhs rhs j), find-put j k s result, same, c)
              (in_target_same j rest s)
      ]

  module _ (lhs rhs set : SeriesSet) (size : ℕ) (fits : Fits lhs rhs set) where
    combine_all_lem :
        (rest : SeriesSet) (offset : ℕ) (result : SeriesSet)
        → AllFound rest set
        → offset + values_len rest ≤ size
        → (r : SeriesSet) × (combine_all rt decimal metric_name zero_value op lhs rhs size rest
              offset result
            ≡ some r)
          × ((k : SeriesMapKey)
              → find k r ≡ or_old (in_target k rest (combined lhs rhs k)) (find k result))
    unfolding combine_all values_len find
    combine_all_lem [] offset result found room = (result, refl, λ k. refl)
    combine_all_lem ((k, t) ∷ rest) offset result (h, hs) room =
        elim (Option-cases (match_both lhs rhs k)) [
          | inl n ↦
              let (r, e, rest') = combine_all_lem rest offset result hs (omega arith) in
              (r, rw (n, combine_all) e, λ j. rest' j ∙ skip_key lhs rhs j k t rest result n)
          | inr ((l, r), e) ↦
              let small = fits k t l r h e in
              let n = min (length (r.0).values) (length (l.0).values) in
              let (out, done, rest') =
                combine_all_lem rest (offset + n)
                  (put k (combine_series rt decimal metric_name zero_value op l r) result) hs
                  (omega (arith, small, room)) in
              let ok' : leb (offset + n) size ≡ true = ground (arith, small, room) in
              (
                out,
                rw (e, ok', combine_all) done,
                λ j. rest' j ∙ put_key lhs rhs j k t rest result l r e,
              )
        ]

-- For two sets of series with each key once: the arithmetic between them does not reach beyond its
-- buffer. The result has a series for just the keys of the left set, if the right one has a series
-- without labels, or else of the right set, that both sides have a series for, or one without labels;
-- its value at each time is the operator's on theirs, where both have one.
pub apply_binary_op_lem :
    (rt : Runtime) (decimal : ℕ → Text) (metric_name : Text) (zero_value : ℕ) (op : Operator)
    (lhs rhs : SeriesSet)
    → HasUniqueKeys lhs
    → HasUniqueKeys rhs
    → (r : SeriesSet) × (apply_binary_op rt decimal metric_name zero_value op lhs rhs ≡ some r)
      × ((k : SeriesMapKey)
          → (IsNoKey lhs rhs k → find k r ≡ none)
            × (HasNoSide lhs k ⊎ HasNoSide rhs k → find k r ≡ none)
            × ((a b : TimeSeries)
                → IsKey lhs rhs k
                → IsSide lhs k a
                → IsSide rhs k b
                → (s : TimeSeries) × (find k r ≡ some s)
                  × PointwiseOf (apply_arithmetic_op rt zero_value op) a.values b.values s.values))
unfolding apply_binary_op find combine_series
apply_binary_op_lem rt decimal metric_name zero_value op lhs rhs u v =
    let (r, e, finds) =
      combine_all_lem rt decimal metric_name zero_value op lhs rhs (target lhs rhs)
        (values_len (target lhs rhs)) (target-Fits lhs rhs) (target lhs rhs) 0 []
        (unique-AllFound (target lhs rhs) (target-HasUniqueKeys lhs rhs u v)) (omega arith) in
    (
      r,
      e,
      λ k. (
        λ n. finds k ∙ rw (no_key_target lhs rhs k n) refl,
        λ n.
            finds k
            ∙ rw (no_match lhs rhs k n)
                (ap (λ o. or_old o none) (in_target-none k (target lhs rhs))),
        λ a b key left right.
            let (t, f) = key_target lhs rhs k key in
            let (x, y, m) = both_match lhs rhs k a b left right in
            (
              combine_series rt decimal metric_name zero_value op (a, x) (b, y),
              finds k ∙ rw (f, m) refl,
              combine_values_lem rt decimal metric_name zero_value op a.values b.values,
            ),
      ),
    )
