-- ===== src/Series/Stages.antt =====
-- traceql/ast_metrics.go and traceql/ast_metrics_math.go: what follows the first stage of a metrics
-- query: topk and bottomk, filters, chains of these, and expressions between sub-queries. Results are
-- new values; the source writes some into the series that it is given.
pub mod Filtered
pub mod WellSets
pub mod Total
use traceql_syntax.Base.{
  ℕ, Bool, true, false, not, ◌&&◌, ◌||◌, List, [], ◌∷◌, ◌++◌, map, any, select, Option, none, some,
  Text, codes, list_eq, length, Result, ok, err, ◌>>◌, slt64, sle64, word_mod, ◌%◌, if◌then◌else◌,
}
use traceql_syntax.Runtime.{Runtime}
use traceql_syntax.Static.{Static, static_nil, static_string}
use traceql_syntax.Operator.{
  Operator, is_arithmetic, op_none, op_greater, op_greater_equal, op_less, op_less_equal, op_equal,
  op_not_equal,
}
use traceql_syntax.Range.{QueryRangeRequest}
use traceql_syntax.Range.Intervals.{new_interval_mapper_from_req, count}
use traceql_syntax.Series.{
  Label, Labels, Exemplar, TimeSeries, SeriesMapLabel, SeriesMapKey, SeriesSet, max_group_bys,
  fill_key, get_value, put,
}
use traceql_syntax.Series.Top.{is_nan, process_top_k, process_bottom_k}
use traceql_syntax.Series.Math.{apply_binary_op}

pub data SecondStageOp : Type 0 where
  op_top_k op_bottom_k : SecondStageOp

-- The limit and the length are ints.
pub record TopKBottomK : Type 0 where
  pub op : SecondStageOp
  pub limit : ℕ
  pub length : ℕ
  pub sep : Text

pub record MetricsFilter : Type 0 where
  pub op : Operator
  pub value : ℕ
  pub sep : Text

mutual
  -- The second stages.
  pub data Stage : Type 0 where
    top_k_bottom_k : TopKBottomK → Stage
    metrics_filter : MetricsFilter → Stage
    chained : Chain → Stage
    math : MathExpression → Stage

  pub data Chain : Type 0 where
    end_of_chain : Chain
    then_stage : Stage → Chain → Chain

  -- A leaf has the operator none and a key; any other node has two sides. The filter may be nil.
  pub data MathExpression : Type 0 where
    leaf : Text → Filter → MathExpression
    node : Operator → MathExpression → MathExpression → Filter → MathExpression

  pub data Filter : Type 0 where
    no_filter : Filter
    with_filter : Stage → Filter

pub data StageInvalid : Type 0 where
  invalid_limit unsupported_filter unsupported_math : StageInvalid

unfoldable pub validate_top_k : TopKBottomK → Result StageInvalid (Unit {0})
validate_top_k m = if sle64 m.limit 0 then err invalid_limit else ok tt

unfoldable pub validate_metrics_filter : MetricsFilter → Result StageInvalid (Unit {0})
validate_metrics_filter m = elim m.op [
  | op_greater ↦ ok tt
  | op_greater_equal ↦ ok tt
  | op_less ↦ ok tt
  | op_less_equal ↦ ok tt
  | op_equal ↦ ok tt
  | op_not_equal ↦ ok tt
  | _ ↦ err unsupported_filter
]

unfoldable mutual
  unfolding validate_top_k validate_metrics_filter is_arithmetic

  pub validate_stage : Stage → Result StageInvalid (Unit {0})
  validate_stage (top_k_bottom_k m) = validate_top_k m
  validate_stage (metrics_filter m) = validate_metrics_filter m
  validate_stage (chained c) = validate_chain c
  validate_stage (math m) = validate_math m

  pub validate_chain : Chain → Result StageInvalid (Unit {0})
  validate_chain end_of_chain = ok tt
  validate_chain (then_stage e c) = validate_stage e >> validate_chain c

  pub validate_math : MathExpression → Result StageInvalid (Unit {0})
  validate_math (leaf key f) = validate_maybe f
  validate_math (node op l r f) =
      if is_arithmetic op
      then validate_math l >> (validate_math r >> validate_maybe f)
      else err unsupported_math

  pub validate_maybe : Filter → Result StageInvalid (Unit {0})
  validate_maybe no_filter = ok tt
  validate_maybe (with_filter s) = validate_stage s

-- `n` is the count of intervals of the request.
unfoldable mutual
  pub init_stage : ℕ → Stage → Stage
  init_stage n (top_k_bottom_k m) = top_k_bottom_k (record m { length = n })
  init_stage n (metrics_filter m) = metrics_filter m
  init_stage n (chained c) = chained (init_chain n c)
  init_stage n (math m) = math (init_math n m)

  pub init_chain : ℕ → Chain → Chain
  init_chain n end_of_chain = end_of_chain
  init_chain n (then_stage e c) = then_stage (init_stage n e) (init_chain n c)

  pub init_math : ℕ → MathExpression → MathExpression
  init_math n (leaf key f) = leaf key (init_maybe n f)
  init_math n (node op l r f) = node op (init_math n l) (init_math n r) (init_maybe n f)

  pub init_maybe : ℕ → Filter → Filter
  init_maybe n no_filter = no_filter
  init_maybe n (with_filter s) = with_filter (init_stage n s)

-- `key_map` is nothing where it has no key.
unfoldable pub rewrite_keys : (Text → Option Text) → MathExpression → MathExpression
rewrite_keys key_map (leaf key f) = elim (key_map key) [
  | some new_key ↦ leaf new_key f
  | none ↦ leaf key f
]
rewrite_keys key_map (node op l r f) = node op (rewrite_keys key_map l) (rewrite_keys key_map r) f

abbrev pub query_fragment : Text
query_fragment = codes "__query_fragment"

-- Whether a series belongs to the leaf: it has no fragment, or the one of the key.
unfoldable pub is_of_leaf : Text → Static → Bool
unfolding list_eq
is_of_leaf key static_nil = true
is_of_leaf key (static_string s) = list_eq s key
is_of_leaf key v = false

unfoldable pub without_fragment : Labels → Labels
unfolding list_eq select
without_fragment ls = select (λ l. not (list_eq l.name query_fragment)) ls

unfoldable pub key_without_fragment : SeriesMapKey → Option SeriesMapKey
unfolding fill_key list_eq select
key_without_fragment k =
    fill_key max_group_bys (select (λ l. not (list_eq l.name query_fragment)) k)

-- The loop over the series; `none` is the panic of a key that is too long.
unfoldable pub leaf_series : Text → SeriesSet → SeriesSet → Option SeriesSet
unfolding is_of_leaf get_value without_fragment key_without_fragment put
leaf_series key [] result = some result
leaf_series key ((k, s) ∷ rest) result =
    let skipped = leaf_series key rest result in
    if is_of_leaf key (get_value query_fragment s.labels)
    then elim (key_without_fragment k) [
      | none ↦ none
      | some k' ↦
          leaf_series key rest (put k' (record s { labels = without_fragment s.labels }) result)
    ]
    else skipped

-- An int, and 0 for one below 0: no loop runs so often, and no queue is shorter.
abbrev pub int_or_zero : ℕ → ℕ
int_or_zero n = if slt64 n 0 then 0 else n % word_mod

abbrev pub unless_panic : Option SeriesSet → (SeriesSet → Option SeriesSet) → Option SeriesSet
unless_panic none f = none
unless_panic (some s) f = f s

module _ (rt : Runtime) where
  unfoldable pub compare_value : MetricsFilter → ℕ → Bool
  compare_value m v = elim m.op [
    | op_greater ↦ rt.f_lt m.value v
    | op_greater_equal ↦ rt.f_le m.value v
    | op_less ↦ rt.f_lt v m.value
    | op_less_equal ↦ rt.f_le v m.value
    | op_equal ↦ rt.f_eq v m.value
    | op_not_equal ↦ not (rt.f_eq v m.value)
    | _ ↦ false
  ]

  -- Whether a value stays.
  unfoldable pub stays : MetricsFilter → ℕ → Bool
  unfolding compare_value
  stays m v = not (is_nan rt v) && compare_value m v

  unfoldable pub filter_values : MetricsFilter → List ℕ → List ℕ
  unfolding stays
  filter_values m [] = []
  filter_values m (v ∷ vs) = (if stays m v then v else rt.nan) ∷ filter_values m vs

  unfoldable pub process_filter : MetricsFilter → SeriesSet → SeriesSet
  unfolding stays filter_values any select
  process_filter m [] = []
  process_filter m ((k, s) ∷ rest) =
      let others = process_filter m rest in
      if any (stays m) s.values
      then (
        k,
        record s {
          values = filter_values m s.values;
          exemplars = select (λ e. stays m e.value) s.exemplars;
        },
      )
        ∷ others
      else others

  unfoldable pub process_top_k_bottom_k : TopKBottomK → SeriesSet → Option SeriesSet
  unfolding process_top_k process_bottom_k
  process_top_k_bottom_k m input = if sle64 (length input) m.limit then some input else elim m.op [
    | op_top_k ↦ process_top_k rt input (int_or_zero m.length) (int_or_zero m.limit)
    | op_bottom_k ↦ process_bottom_k rt input (int_or_zero m.length) (int_or_zero m.limit)
  ]

  module _ (decimal : ℕ → Text) (metric_name : Text) (zero_value : ℕ) where
    unfoldable mutual
      unfolding process_top_k_bottom_k process_filter leaf_series apply_binary_op

      pub process : Stage → SeriesSet → Option SeriesSet
      process (top_k_bottom_k m) input = process_top_k_bottom_k m input
      process (metrics_filter m) input = some (process_filter m input)
      process (chained c) input = process_chain c input
      process (math m) input = process_math m input

      pub process_chain : Chain → SeriesSet → Option SeriesSet
      process_chain end_of_chain input = some input
      process_chain (then_stage e c) input = unless_panic (process e input) (process_chain c)

      pub process_math : MathExpression → SeriesSet → Option SeriesSet
      process_math (leaf key f) input = unless_panic (leaf_series key input []) (process_maybe f)
      process_math (node op l r f) input = unless_panic (process_math l input) λ lhs.
          unless_panic (process_math r input) λ rhs.
            unless_panic (apply_binary_op rt decimal metric_name zero_value op lhs rhs)
              (process_maybe f)

      pub process_maybe : Filter → SeriesSet → Option SeriesSet
      process_maybe no_filter input = some input
      process_maybe (with_filter s) input = process s input
