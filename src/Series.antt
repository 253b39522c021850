-- ===== src/Series.antt =====
-- traceql/engine_metrics.go: labels, time series and sets of series. A set of series is a list of keys,
-- each once, with their series; Go goes through it in any order, so theorems are about any list.
pub mod Queue
pub mod Greatest
pub mod Maps
pub mod Top
pub mod Math
pub mod Stages
use traceql_syntax.Base.{
  ℕ, zero, suc, ◌+◌, ◌-◌, Bool, true, false, not, ◌&&◌, ◌||◌, List, [], ◌∷◌, ◌++◌, Option, none,
  some, Text, list_eq, length, if◌then◌else◌,
}
use traceql_syntax.StaticType.{type_nil}
use traceql_syntax.Static.{Static, static_nil}
use traceql_syntax.Pipeline.Group.{StaticMapKey, key_eq, map_key}

pub record Label : Type 0 where
  pub name : Text
  pub value : Static

abbrev pub Labels : Type 0
Labels = List Label

unfoldable pub has : Text → Labels → Bool
unfolding list_eq
has name [] = false
has name (l ∷ ls) = list_eq l.name name || has name ls

unfoldable pub get_value : Text → Labels → Static
unfolding list_eq
get_value name [] = static_nil
get_value name (l ∷ ls) =
    let rest = get_value name ls in if list_eq l.name name then l.value else rest

unfoldable pub add_label : Label → Labels → Labels
add_label l ls = ls ++ (l ∷ [])

pub record Exemplar : Type 0 where
  pub labels : Labels
  pub value : ℕ
  pub timestamp_ms : ℕ

pub record TimeSeries : Type 0 where
  pub labels : Labels
  pub values : List ℕ
  pub exemplars : List Exemplar

pub record SeriesMapLabel : Type 0 where
  pub name : Text
  pub value : StaticMapKey

-- An array of `max_group_bys` labels.
abbrev pub SeriesMapKey : Type 0
SeriesMapKey = List SeriesMapLabel

abbrev pub max_group_bys : ℕ
max_group_bys = 5

abbrev pub no_label : SeriesMapLabel
no_label = record { name = []; value = record { typ = type_nil; code = 0; str = [] } }

-- The rest of an array of the length; `none` is the panic of an index out of range.
unfoldable pub fill_key : ℕ → SeriesMapKey → Option SeriesMapKey
fill_key zero [] = some []
fill_key zero (l ∷ ls) = none
fill_key (suc n) [] = elim (fill_key n []) [ none ↦ none | some r ↦ some (no_label ∷ r) ]
fill_key (suc n) (l ∷ ls) = elim (fill_key n ls) [ none ↦ none | some r ↦ some (l ∷ r) ]

-- The labels but the one of the name, with their map keys.
unfoldable pub key_labels : (List ℕ → ℕ) → Text → Labels → SeriesMapKey
unfolding list_eq map_key
key_labels sum64 metric_name [] = []
key_labels sum64 metric_name (l ∷ ls) =
    let rest = key_labels sum64 metric_name ls in
    if list_eq l.name metric_name
    then rest
    else record { name = l.name; value = map_key sum64 l.value } ∷ rest

-- `metric_name` is model.MetricNameLabel of Prometheus.
unfoldable pub labels_map_key : (List ℕ → ℕ) → Text → Labels → Option SeriesMapKey
unfolding fill_key key_labels
labels_map_key sum64 metric_name ls = fill_key max_group_bys (key_labels sum64 metric_name ls)

abbrev pub no_labels_series_map_key : SeriesMapKey
no_labels_series_map_key = no_label ∷ no_label ∷ no_label ∷ no_label ∷ no_label ∷ []

unfoldable pub label_eq : SeriesMapLabel → SeriesMapLabel → Bool
unfolding list_eq key_eq
label_eq a b = list_eq a.name b.name && key_eq a.value b.value

unfoldable pub series_key_eq : SeriesMapKey → SeriesMapKey → Bool
unfolding label_eq
series_key_eq [] [] = true
series_key_eq [] (b ∷ bs) = false
series_key_eq (a ∷ k) [] = false
series_key_eq (a ∷ k) (b ∷ bs) = label_eq a b && series_key_eq k bs

abbrev pub SeriesSet : Type 0
SeriesSet = List (SeriesMapKey × TimeSeries)

unfoldable pub find : SeriesMapKey → SeriesSet → Option TimeSeries
unfolding series_key_eq
find k [] = none
find k ((j, s) ∷ rest) = let later = find k rest in if series_key_eq k j then some s else later

unfoldable pub put : SeriesMapKey → TimeSeries → SeriesSet → SeriesSet
unfolding series_key_eq
put k s [] = (k, s) ∷ []
put k s ((j, t) ∷ rest) =
    let later = put k s rest in if series_key_eq k j then (j, s) ∷ rest else (j, t) ∷ later
