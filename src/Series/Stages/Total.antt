-- ===== src/Series/Stages/Total.antt =====
-- That validated stages do not panic.
use traceql_syntax.Base.{
  ℕ, ◌<◌, true, false, any, length, some, Text, Result, ok, err, ◌>>◌, sle64, if◌then◌else◌, ◌≡◌,
  ◌≢◌, refl, sym, ap, ◌∙◌, arith, Bool-cases, inl, inr, [], ◌∷◌,
}
use traceql_syntax.Runtime.{Runtime, IsFloatOrder}
use traceql_syntax.Operator.{Operator, is_arithmetic}
use traceql_syntax.Series.{SeriesSet}
use traceql_syntax.Series.Maps.{IsWellSet, HaveKeys}
use traceql_syntax.Series.Top.{
  process_top_k, process_bottom_k, data_point_less_than, data_point_greater_than,
}
use traceql_syntax.Series.Top.Selected.{process_k-Selects}
use traceql_syntax.Series.Math.{apply_binary_op}
use traceql_syntax.Series.Stages.{
  TopKBottomK, MetricsFilter, Stage, top_k_bottom_k, metrics_filter, chained, math, Chain,
  end_of_chain, then_stage, MathExpression, leaf, node, Filter, no_filter, with_filter,
  SecondStageOp, op_top_k, op_bottom_k, StageInvalid, invalid_limit, unsupported_math, stays,
  process_filter, process_top_k_bottom_k, process, process_chain, process_math, process_maybe,
  validate_stage, validate_chain, validate_math, validate_maybe, validate_top_k, int_or_zero,
  unless_panic,
}
use traceql_syntax.Series.Stages.Filtered.{filter-HasUniqueKeys}
use traceql_syntax.Series.Stages.WellSets.{
  apply_binary_op-total, leaf_series-total, empty-IsWellSet, process_times-IsWellSet,
}

positive_limit : (n : ℕ) → sle64 n 0 ≡ false → 0 < int_or_zero n
positive_limit n h = ground arith

valid_limit : (m : TopKBottomK) → validate_top_k m ≡ ok tt → 0 < int_or_zero m.limit
unfolding validate_top_k
valid_limit m h = elim (Bool-cases (sle64 m.limit 0)) [
  | inl low ↦ let bad : err invalid_limit ≡ ok tt = (rw low at h) in absurd (cc (bad))
  | inr high ↦ positive_limit m.limit high
]

-- Both of two checks passed.
both_passed : (a b : Result StageInvalid (Unit {0})) → (a >> b) ≡ ok tt → (a ≡ ok tt) × (b ≡ ok tt)
both_passed (ok tt) b h = (refl, h)
both_passed (err e) b h = absurd (cc h)

accepted :
    (op : Operator) (l r : MathExpression) (f : Filter)
    → is_arithmetic op ≡ true
    → validate_math (node op l r f) ≡ ok tt
    → (validate_math l >> (validate_math r >> validate_maybe f)) ≡ ok tt
unfolding validate_stage
accepted op l r f a v =
    sym (
      ap
        (λ b.
          if b
          then validate_math l >> (validate_math r >> validate_maybe f)
          else err unsupported_math)
        a)
    ∙ v

refused :
    (op : Operator) (l r : MathExpression) (f : Filter)
    → is_arithmetic op ≡ false
    → validate_math (node op l r f) ≢ ok tt
unfolding validate_stage
refused op l r f a v =
    let bad : err unsupported_math ≡ ok tt =
      sym (
        ap
          (λ b.
            if b
            then validate_math l >> (validate_math r >> validate_maybe f)
            else err unsupported_math)
          a)
      ∙ v in
    cc (bad)

module _ (rt : Runtime) (o : IsFloatOrder rt) where
  filter-HaveKeys :
      (m : MetricsFilter) (input : SeriesSet)
      → HaveKeys input
      → HaveKeys (process_filter rt m input)
  unfolding process_filter
  filter-HaveKeys m [] h = tt
  filter-HaveKeys m ((k, s) ∷ rest) (h, hs) = elim (Bool-cases (any (stays rt m) s.values)) [
    | inl some' ↦ rw some' (h, filter-HaveKeys m rest hs)
    | inr none' ↦ rw none' (filter-HaveKeys m rest hs)
  ]

  selected_total :
      (op : SecondStageOp) (input : SeriesSet) (len limit : ℕ)
      → 0 < limit
      → IsWellSet input
      → (r : SeriesSet) × (elim op [
        | op_top_k ↦ process_top_k rt input len limit
        | op_bottom_k ↦ process_bottom_k rt input len limit
      ]
          ≡ some r)
        × IsWellSet r
  unfolding process_top_k process_bottom_k
  selected_total op_top_k input len limit positive w =
      let (r, e, _) = (process_k-Selects rt input len limit o w.unique positive).0 in
      (
        r,
        e,
        process_times-IsWellSet rt (data_point_less_than rt) (data_point_greater_than rt) input len
            limit 0 len [] r w.keys empty-IsWellSet e,
      )
  selected_total op_bottom_k input len limit positive w =
      let (r, e, _) = (process_k-Selects rt input len limit o w.unique positive).1 in
      (
        r,
        e,
        process_times-IsWellSet rt (data_point_greater_than rt) (data_point_less_than rt) input len
            limit 0 len [] r w.keys empty-IsWellSet e,
      )

  process_top_k_bottom_k-total :
      (m : TopKBottomK) (input : SeriesSet)
      → validate_top_k m ≡ ok tt
      → IsWellSet input
      → (r : SeriesSet) × (process_top_k_bottom_k rt m input ≡ some r) × IsWellSet r
  unfolding process_top_k_bottom_k
  process_top_k_bottom_k-total m input valid w = elim (Bool-cases (sle64 (length input) m.limit)) [
    | inl few ↦ (input, rw few refl, w)
    | inr many ↦
        let (r, e, well) =
          selected_total m.op input (int_or_zero m.length) (int_or_zero m.limit)
            (valid_limit m valid) w in
        (r, rw many e, well)
  ]

  module _ (decimal : ℕ → Text) (metric_name : Text) (zero_value : ℕ) where
    -- An operation whose sides do not panic.
    node_done :
        (op : Operator) (l r : MathExpression) (f : Filter) (input lhs rhs out : SeriesSet)
        → process_math rt decimal metric_name zero_value l input ≡ some lhs
        → process_math rt decimal metric_name zero_value r input ≡ some rhs
        → apply_binary_op rt decimal metric_name zero_value op lhs rhs ≡ some out
        → process_math rt decimal metric_name zero_value (node op l r f) input
          ≡ process_maybe rt decimal metric_name zero_value f out
    unfolding process
    node_done op l r f input lhs rhs out a b c =
        ap
          (λ x. unless_panic x λ lhs.
            unless_panic (process_math rt decimal metric_name zero_value r input) λ rhs.
              unless_panic (apply_binary_op rt decimal metric_name zero_value op lhs rhs)
                (process_maybe rt decimal metric_name zero_value f))
          a
        ∙ (ap
              (λ x. unless_panic x λ rhs.
                unless_panic (apply_binary_op rt decimal metric_name zero_value op lhs rhs)
                  (process_maybe rt decimal metric_name zero_value f))
              b
            ∙ ap (λ x. unless_panic x (process_maybe rt decimal metric_name zero_value f)) c)

    mutual
      unfolding process validate_stage

      stage_total :
          (s : Stage) (input : SeriesSet)
          → validate_stage s ≡ ok tt
          → IsWellSet input
          → (r : SeriesSet) × (process rt decimal metric_name zero_value s input ≡ some r)
            × IsWellSet r
      stage_total (top_k_bottom_k m) input v w = process_top_k_bottom_k-total m input v w
      stage_total (metrics_filter m) input v w = (
        process_filter rt m input,
        refl,
        record {
          unique = filter-HasUniqueKeys rt m input w.unique;
          keys = filter-HaveKeys m input w.keys;
        },
      )
      stage_total (chained c) input v w = chain_total c input v w
      stage_total (math m) input v w = math_total m input v w

      chain_total :
          (c : Chain) (input : SeriesSet)
          → validate_chain c ≡ ok tt
          → IsWellSet input
          → (r : SeriesSet) × (process_chain rt decimal metric_name zero_value c input ≡ some r)
            × IsWellSet r
      chain_total end_of_chain input v w = (input, refl, w)
      chain_total (then_stage e c) input v w =
          let (v', v'') = both_passed (validate_stage e) (validate_chain c) v in
          let (out, done, well) = stage_total e input v' w in
          let (r, rest, well') = chain_total c out v'' well in
          (
            r,
            ap (λ x. unless_panic x (process_chain rt decimal metric_name zero_value c)) done
                ∙ rest,
            well',
          )

      math_total :
          (m : MathExpression) (input : SeriesSet)
          → validate_math m ≡ ok tt
          → IsWellSet input
          → (r : SeriesSet) × (process_math rt decimal metric_name zero_value m input ≡ some r)
            × IsWellSet r
      math_total (leaf key f) input v w =
          let (out, done, well) = leaf_series-total key input [] w.keys empty-IsWellSet in
          let (r, rest, well') = maybe_total f out v well in
          (
            r,
            ap (λ x. unless_panic x (process_maybe rt decimal metric_name zero_value f)) done
                ∙ rest,
            well',
          )
      math_total (node op l r f) input v w = elim (Bool-cases (is_arithmetic op)) [
        | inr other ↦ absurd (refused op l r f other v)
        | inl arithmetic ↦
            let v' : (validate_math l >> (validate_math r >> validate_maybe f)) ≡ ok tt =
              accepted op l r f arithmetic v in
            let (v_l, v_r_f) =
              both_passed (validate_math l) (validate_math r >> validate_maybe f) v' in
            let (v_r, v_f) = both_passed (validate_math r) (validate_maybe f) v_r_f in
            let (lhs, done_l, well_l) = math_total l input v_l w in
            let (rhs, done_r, well_r) = math_total r input v_r w in
            let (out, done, well) =
              apply_binary_op-total rt decimal metric_name zero_value op lhs rhs well_l well_r in
            let (end', rest, well') = maybe_total f out v_f well in
            (end', node_done op l r f input lhs rhs out done_l done_r done ∙ rest, well')
      ]

      maybe_total :
          (f : Filter) (input : SeriesSet)
          → validate_maybe f ≡ ok tt
          → IsWellSet input
          → (r : SeriesSet) × (process_maybe rt decimal metric_name zero_value f input ≡ some r)
            × IsWellSet r
      maybe_total no_filter input v w = (input, refl, w)
      maybe_total (with_filter s) input v w = stage_total s input v w

-- For comparisons of floats that are an order, and a set of series with each key once and as long as
-- the keys of the code: a second stage that passes its validation, with all stages in it and the
-- expressions between queries, does not panic, and its result is such a set again.
pub valid-total :
    (rt : Runtime) (decimal : ℕ → Text) (metric_name : Text) (zero_value : ℕ) (s : Stage)
    (input : SeriesSet)
    → IsFloatOrder rt
    → validate_stage s ≡ ok tt
    → IsWellSet input
    → (r : SeriesSet) × (process rt decimal metric_name zero_value s input ≡ some r) × IsWellSet r
valid-total rt decimal metric_name zero_value s input o v w =
    stage_total rt o decimal metric_name zero_value s input v w
