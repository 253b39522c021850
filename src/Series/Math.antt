-- ===== src/Series/Math.antt =====
-- traceql/ast_metrics_math.go: arithmetic between two sets of series. `metric_name` is
-- model.MetricNameLabel of Prometheus.
pub mod Sides
pub mod Matched
use traceql_syntax.Base.{
  ℕ, zero, suc, ◌+◌, Bool, true, false, not, ◌&&◌, ◌||◌, List, [], ◌∷◌, ◌++◌, Option, none, some,
  Text, codes, list_eq, length, select, min, leb, if◌then◌else◌,
}
use traceql_syntax.Runtime.{Runtime}
use traceql_syntax.Static.{Static, static_string}
use traceql_syntax.Operator.{Operator, op_add, op_sub, op_mult, op_div}
use traceql_syntax.Operator.Texts.{to_string}
use traceql_syntax.Series.{
  Label, Labels, Exemplar, TimeSeries, SeriesMapKey, SeriesSet, no_labels_series_map_key, has,
  get_value, find, put,
}

-- The series, whether it is the one without labels, and nothing where there is neither.
unfoldable pub get_ts_match : SeriesSet → SeriesMapKey → Option (TimeSeries × Bool)
unfolding find
get_ts_match set k = elim (find k set) [
  | some s ↦ some (s, false)
  | none ↦ elim (find no_labels_series_map_key set) [ some s ↦ some (s, true) | none ↦ none ]
]

unfoldable pub merge_exemplars : List Exemplar → List Exemplar → List Exemplar
merge_exemplars [] b = b
merge_exemplars (e ∷ a) [] = e ∷ a
merge_exemplars (e ∷ a) (f ∷ b) = e ∷ a ++ (f ∷ b)

unfoldable pub fan_out_exemplars : Bool → Bool → List Exemplar → List Exemplar → List Exemplar
unfolding merge_exemplars
fan_out_exemplars true true l r = merge_exemplars l r
fan_out_exemplars false false l r = merge_exemplars l r
fan_out_exemplars true false l r = r
fan_out_exemplars false true l r = l

-- The labels of the right side that the left has not.
unfoldable pub new_labels : Text → Labels → Labels → Labels
unfolding has list_eq
new_labels metric_name l r = select (λ x. not (list_eq x.name metric_name) && not (has x.name l)) r

-- out[i] = out[len(out)-1]; out = out[:len(out)-1]
unfoldable pub last_or : Label → Labels → Label
last_or d [] = d
last_or d (l ∷ ls) = last_or l ls

unfoldable pub but_last : Label → Labels → Labels
but_last l [] = []
but_last l (m ∷ ls) = l ∷ but_last m ls

-- The label of the name is replaced by the last one.
unfoldable pub remove_name : Text → Labels → Labels
unfolding list_eq last_or but_last
remove_name metric_name [] = []
remove_name metric_name (l ∷ []) = if list_eq l.name metric_name then [] else l ∷ []
remove_name metric_name (l ∷ m ∷ ls) =
    let rest = remove_name metric_name (m ∷ ls) in
    if list_eq l.name metric_name then last_or m ls ∷ but_last m ls else l ∷ rest

unfoldable pub set_name : Text → Static → Labels → Labels
unfolding list_eq
set_name metric_name v [] = []
set_name metric_name v (l ∷ ls) =
    let rest = set_name metric_name v ls in
    if list_eq l.name metric_name then record l { value = v } ∷ ls else l ∷ rest

unfoldable pub name_labels : (ℕ → Text) → Text → Operator → Static → Static → Labels → Labels
unfolding set_name remove_name to_string
name_labels decimal metric_name op (static_string l) (static_string r) out =
    set_name metric_name
      (static_string (
        codes "("
        ++ (l ++ (codes " " ++ (to_string decimal op ++ (codes " " ++ (r ++ codes ")")))))))
      out
name_labels decimal metric_name op l r out = remove_name metric_name out

unfoldable pub merge_labels : (ℕ → Text) → Text → Operator → Labels → Labels → Labels
unfolding new_labels name_labels get_value
merge_labels decimal metric_name op l r =
    name_labels decimal metric_name op (get_value metric_name l) (get_value metric_name r)
      (l ++ new_labels metric_name l r)

-- The series of both sides that go together.
unfoldable pub match_both :
    SeriesSet → SeriesSet → SeriesMapKey → Option ((TimeSeries × Bool) × (TimeSeries × Bool))
unfolding get_ts_match
match_both lhs rhs k = elim (get_ts_match lhs k) [
  | none ↦ none
  | some l ↦ elim (get_ts_match rhs k) [ none ↦ none | some r ↦ some (l, r) ]
]

unfoldable pub values_len : SeriesSet → ℕ
values_len [] = 0
values_len ((k, t) ∷ rest) = length t.values + values_len rest

-- The set whose keys the result has: the left one if the right has a series without labels.
unfoldable pub target : SeriesSet → SeriesSet → SeriesSet
unfolding find
target lhs rhs = elim (find no_labels_series_map_key rhs) [ some s ↦ lhs | none ↦ rhs ]

module _ (rt : Runtime) where
  -- `zero_value` is the float64 0 that a divisor is compared with.
  unfoldable pub apply_arithmetic_op : ℕ → Operator → ℕ → ℕ → ℕ
  apply_arithmetic_op zero_value op_add l r = rt.f_add l r
  apply_arithmetic_op zero_value op_sub l r = rt.f_sub l r
  apply_arithmetic_op zero_value op_mult l r = rt.f_mul l r
  apply_arithmetic_op zero_value op_div l r = if rt.f_eq r zero_value then rt.nan else rt.f_div l r
  apply_arithmetic_op zero_value op l r = rt.nan

  -- The values of both sides, as far as the shorter goes.
  unfoldable pub combine_values : ℕ → Operator → List ℕ → List ℕ → List ℕ
  unfolding apply_arithmetic_op
  combine_values zero_value op [] ys = []
  combine_values zero_value op (x ∷ xs) [] = []
  combine_values zero_value op (x ∷ xs) (y ∷ ys) =
      apply_arithmetic_op zero_value op x y ∷ combine_values zero_value op xs ys

  unfoldable pub combine_series :
      (ℕ → Text) → Text → ℕ → Operator → TimeSeries × Bool → TimeSeries × Bool → TimeSeries
  unfolding merge_labels combine_values fan_out_exemplars
  combine_series decimal metric_name zero_value op (l, l_fan) (r, r_fan) = record {
    labels = merge_labels decimal metric_name op l.labels r.labels;
    values = combine_values zero_value op l.values r.values;
    exemplars = fan_out_exemplars l_fan r_fan l.exemplars r.exemplars;
  }

  -- The loop over the keys of the target, with what is used of the buffer and its size. `none` is
  -- the panic of a slice beyond the buffer.
  unfoldable pub combine_all :
      (ℕ → Text)
      → Text
      → ℕ
      → Operator
      → SeriesSet
      → SeriesSet
      → ℕ
      → SeriesSet
      → ℕ
      → SeriesSet
      → Option SeriesSet
  unfolding match_both combine_series put
  combine_all decimal metric_name zero_value op lhs rhs size [] offset result = some result
  combine_all decimal metric_name zero_value op lhs rhs size ((k, t) ∷ rest) offset result =
      elim (match_both lhs rhs k) [
        | none ↦ combine_all decimal metric_name zero_value op lhs rhs size rest offset result
        | some (l, r) ↦
            let n = min (length (r.0).values) (length (l.0).values) in
            let next =
              combine_all decimal metric_name zero_value op lhs rhs size rest (offset + n)
                (put k (combine_series decimal metric_name zero_value op l r) result) in
            if leb (offset + n) size then next else none
      ]

  unfoldable pub apply_binary_op :
      (ℕ → Text) → Text → ℕ → Operator → SeriesSet → SeriesSet → Option SeriesSet
  unfolding combine_all values_len target
  apply_binary_op decimal metric_name zero_value op lhs rhs =
      combine_all decimal metric_name zero_value op lhs rhs (values_len (target lhs rhs))
        (target lhs rhs) 0 []
