-- ===== src/Pipeline/Aggregates.antt =====
-- traceql/ast_execute.go: Aggregate.evaluate, ScalarFilter.evaluate on an aggregate and a static,
-- and binOp.
use traceql_syntax.Base.{
  is_gt, is_lt, ℕ, ◌+◌, Bool, false, ◌&&◌, ◌||◌, List, [], ◌∷◌, ◌++◌, length, Option, none, some,
  Text, Result, ok, err, ◌>>=◌, if◌then◌else◌,
}
use traceql_syntax.Runtime.{Runtime}
use traceql_syntax.StaticType.{is_matching_operand}
use traceql_syntax.Operator.{
  Operator, op_and, op_or, op_equal, op_not_equal, op_greater, op_greater_equal, op_less,
  op_less_equal, binary_types_valid,
}
use traceql_syntax.Static.{
  Static, static_nil, static_int, static_bool, type_of, float, equals, not_equals, sum_into,
  divide_by, compare_static,
}
use traceql_syntax.Pipeline.{
  AggregateOp, aggregate_count, aggregate_max, aggregate_min, aggregate_avg,
}
use traceql_syntax.Pipeline.Spanset.{Spanset, EvaluateErr, scalar_filter_failed, add_attribute}

module _ (rt : Runtime) where
  -- The switch of binOp after the types; `none` is its error.
  unfoldable pub bin_op_values : Operator → Static → Static → Option Bool
  unfolding float equals not_equals
  bin_op_values op_and (static_bool l) (static_bool r) = some (l && r)
  bin_op_values op_or (static_bool l) (static_bool r) = some (l || r)
  bin_op_values op_greater l r = some (rt.f_lt (float rt r) (float rt l))
  bin_op_values op_greater_equal l r = some (rt.f_le (float rt r) (float rt l))
  bin_op_values op_less l r = some (rt.f_lt (float rt l) (float rt r))
  bin_op_values op_less_equal l r = some (rt.f_le (float rt l) (float rt r))
  bin_op_values op_equal l r = some (equals rt l r)
  bin_op_values op_not_equal l r = some (not_equals rt l r)
  bin_op_values op l r = none

  unfoldable pub bin_op : Operator → Static → Static → Option Bool
  unfolding is_matching_operand binary_types_valid type_of bin_op_values
  bin_op op l r =
      if is_matching_operand (type_of l) (type_of r)
        && binary_types_valid op (type_of l) (type_of r)
      then bin_op_values op l r
      else some false

  -- What a value after the first does to the value kept.
  unfoldable pub combine : AggregateOp → Static → Static → Static
  unfolding sum_into compare_static
  combine aggregate_max kept val = if is_gt (compare_static rt val kept) then val else kept
  combine aggregate_min kept val = if is_lt (compare_static rt val kept) then val else kept
  combine op kept val = sum_into rt kept val

  -- The value kept and the number of values so far, after a further value; nil is left out.
  unfoldable pub keep_value : AggregateOp → Option Static × ℕ → Static → Option Static × ℕ
  unfolding combine
  keep_value op st static_nil = st
  keep_value op (none, n) val = (some val, n + 1)
  keep_value op (some kept, n) val = (some (combine op kept val), n + 1)

  -- The scalar for the value kept and the number of values.
  unfoldable pub result_of : AggregateOp → Static → ℕ → Static
  unfolding divide_by
  result_of aggregate_avg kept n = divide_by rt kept (rt.of_int n)
  result_of op kept n = kept

module _ (rt : Runtime) {S : Type 0} where
  -- The loop over the spans of a spanset.
  unfoldable pub aggregate_loop :
      AggregateOp
      → (S → Result EvaluateErr Static)
      → List S
      → Option Static × ℕ
      → Result EvaluateErr (Option Static × ℕ)
  unfolding keep_value
  aggregate_loop op run [] st = ok st
  aggregate_loop op run (s ∷ ss) st =
      run s >>= λ val. aggregate_loop op run ss (keep_value rt op st val)

  -- The copy of the spanset with its scalar.
  unfoldable pub with_scalar : Text → Spanset S → Static → Spanset S
  unfolding add_attribute
  with_scalar name ss v = add_attribute name v (record ss { scalar = v })

  -- The output for one spanset: none where all values are nil, except for count().
  unfoldable pub aggregate_spanset :
      AggregateOp
      → Text
      → (S → Result EvaluateErr Static)
      → Spanset S
      → Result EvaluateErr (List (Spanset S))
  unfolding aggregate_loop with_scalar result_of
  aggregate_spanset aggregate_count name run ss =
      ok (with_scalar name ss (static_int (length ss.spans)) ∷ [])
  aggregate_spanset op name run ss = aggregate_loop op run ss.spans (none, 0) >>= λ (kept, n).
      ok (elim kept [ none ↦ [] | some v ↦ with_scalar name ss (result_of rt op v n) ∷ [] ])

  unfoldable pub evaluate_aggregate :
      AggregateOp
      → Text
      → (S → Result EvaluateErr Static)
      → List (Spanset S)
      → Result EvaluateErr (List (Spanset S))
  unfolding aggregate_spanset
  evaluate_aggregate op name run [] = ok []
  evaluate_aggregate op name run (ss ∷ sss) = aggregate_spanset op name run ss >>= λ out.
      evaluate_aggregate op name run sss >>= λ rest. ok (out ++ rest)

  -- The spansets whose scalar compares to the static.
  unfoldable pub filter_scalars :
      Operator → Static → List (Spanset S) → Result EvaluateErr (List (Spanset S))
  unfolding bin_op
  filter_scalars op r [] = ok []
  filter_scalars op r (ss ∷ sss) = elim (bin_op rt op ss.scalar r) [
    | none ↦ err (scalar_filter_failed op)
    | some b ↦ filter_scalars op r sss >>= λ rest. ok (if b then ss ∷ rest else rest)
  ]
