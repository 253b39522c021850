-- ===== src/Pipeline/Avoids.antt =====
-- The steps of an evaluation that do not fail because a scalar filter is not supported
-- (traceql/ast_execute.go).
use traceql_syntax.Base.{
  Bool, List, [], ◌∷◌, Option, none, some, ◌≢◌, Result, ok, err, ◌>>=◌, if◌then◌else◌, ℕ, Text,
}
use traceql_syntax.Runtime.{Runtime}
use traceql_syntax.Operator.{Operator}
use traceql_syntax.Static.{Static}
use traceql_syntax.Pipeline.{
  AggregateOp, aggregate_count, aggregate_max, aggregate_min, aggregate_sum, aggregate_avg,
}
use traceql_syntax.Pipeline.Spanset.{
  Spanset, EvaluateErr, scalar_filter_not_supported, scalar_filter_failed, SpanMethods,
  join_spansets,
}
use traceql_syntax.Pipeline.Filter.{matching_spans}
use traceql_syntax.Pipeline.Copied.{filter_matching}
use traceql_syntax.Pipeline.Group.{evaluate_group, group_spans, Groups}
use traceql_syntax.Pipeline.Aggregates.{
  evaluate_aggregate, aggregate_spanset, aggregate_loop, filter_scalars, bin_op,
}
use traceql_syntax.Pipeline.Evaluate.{
  Evaluation, operation_loop, operation_spans, related_spans, relation, set_operation, Relation,
}

-- Not the error of a scalar filter that is not supported.
unfoldable pub Avoids : {A : Type 0} → Result EvaluateErr A → Type 0
Avoids (ok a) = Unit
Avoids (err e) = e ≢ scalar_filter_not_supported

pub bind-Avoids :
    {A B : Type 0} (r : Result EvaluateErr A) (f : A → Result EvaluateErr B)
    → Avoids r
    → ((a : A) → Avoids (f a))
    → Avoids (r >>= f)
unfolding Avoids
bind-Avoids (ok a) f h k = k a
bind-Avoids (err e) f h k = h

module _ {S : Type 0} (run : S → Result EvaluateErr Static)
    (avoids : (s : S) → Avoids (run s)) where
  matching_spans-Avoids : (xs : List S) → Avoids (matching_spans run xs)
  unfolding matching_spans Avoids
  matching_spans-Avoids [] = tt
  matching_spans-Avoids (x ∷ xs) =
      bind-Avoids (run x) _ (avoids x)
        (λ v. bind-Avoids (matching_spans run xs) _ (matching_spans-Avoids xs) (λ m. tt))

  pub filter-Avoids : (input : List (Spanset S)) → Avoids (filter_matching run input)
  unfolding filter_matching Avoids
  filter-Avoids [] = tt
  filter-Avoids (ss ∷ sss) =
      bind-Avoids (matching_spans run ss.spans) _ (matching_spans-Avoids ss.spans)
        (λ m. bind-Avoids (filter_matching run sss) _ (filter-Avoids sss) (λ out. tt))

  group_spans-Avoids :
      (sum64 : List ℕ → ℕ) (name : Text) (spanset : Spanset S) (xs : List S) (gs : Groups S)
      → Avoids (group_spans sum64 name run spanset xs gs)
  unfolding group_spans Avoids
  group_spans-Avoids sum64 name spanset [] gs = tt
  group_spans-Avoids sum64 name spanset (x ∷ xs) gs =
      bind-Avoids (run x) _ (avoids x) (λ v. group_spans-Avoids sum64 name spanset xs _)

  pub group-Avoids :
      (sum64 : List ℕ → ℕ) (order : List (Spanset S) → List (Spanset S)) (name : Text)
      (input : List (Spanset S))
      → Avoids (evaluate_group sum64 order name run input)
  unfolding evaluate_group Avoids
  group-Avoids sum64 order name [] = tt
  group-Avoids sum64 order name (ss ∷ sss) =
      bind-Avoids (group_spans sum64 name run ss ss.spans []) _
        (group_spans-Avoids sum64 name ss ss.spans [])
        (λ gs.
          bind-Avoids (evaluate_group sum64 order name run sss) _
            (group-Avoids sum64 order name sss) (λ out. tt))

  module _ (rt : Runtime) (op : AggregateOp) where
    loop-Avoids : (xs : List S) (st : Option Static × ℕ) → Avoids (aggregate_loop rt op run xs st)
    unfolding aggregate_loop Avoids
    loop-Avoids [] st = tt
    loop-Avoids (x ∷ xs) st = bind-Avoids (run x) _ (avoids x) (λ v. loop-Avoids xs _)

  spanset-Avoids :
      (rt : Runtime) (op : AggregateOp) (name : Text) (ss : Spanset S)
      → Avoids (aggregate_spanset rt op name run ss)
  unfolding aggregate_spanset Avoids
  spanset-Avoids rt aggregate_count name ss = tt
  spanset-Avoids rt aggregate_max name ss =
      bind-Avoids (aggregate_loop rt aggregate_max run ss.spans (none, 0)) _
        (loop-Avoids rt aggregate_max ss.spans _) (λ p. tt)
  spanset-Avoids rt aggregate_min name ss =
      bind-Avoids (aggregate_loop rt aggregate_min run ss.spans (none, 0)) _
        (loop-Avoids rt aggregate_min ss.spans _) (λ p. tt)
  spanset-Avoids rt aggregate_sum name ss =
      bind-Avoids (aggregate_loop rt aggregate_sum run ss.spans (none, 0)) _
        (loop-Avoids rt aggregate_sum ss.spans _) (λ p. tt)
  spanset-Avoids rt aggregate_avg name ss =
      bind-Avoids (aggregate_loop rt aggregate_avg run ss.spans (none, 0)) _
        (loop-Avoids rt aggregate_avg ss.spans _) (λ p. tt)

  pub aggregate-Avoids :
      (rt : Runtime) (op : AggregateOp) (name : Text) (input : List (Spanset S))
      → Avoids (evaluate_aggregate rt op name run input)
  unfolding evaluate_aggregate Avoids
  aggregate-Avoids rt op name [] = tt
  aggregate-Avoids rt op name (ss ∷ sss) =
      bind-Avoids (aggregate_spanset rt op name run ss) _ (spanset-Avoids rt op name ss) (λ out.
        bind-Avoids (evaluate_aggregate rt op name run sss) _ (aggregate-Avoids rt op name sss)
          (λ rest. tt))

module _ {S : Type 0} (rt : Runtime) where
  compared-Avoids :
      (op : Operator) (ss : Spanset S) (rest : Result EvaluateErr (List (Spanset S)))
      (b : Option Bool)
      → Avoids rest
      → Avoids (elim b as (λ x. Result EvaluateErr (List (Spanset S))) [
        | none ↦ err (scalar_filter_failed op)
        | some b ↦ rest >>= λ out. ok (if b then ss ∷ out else out)
      ])
  unfolding Avoids
  compared-Avoids op ss rest none h = λ e. cc e
  compared-Avoids op ss rest (some b) h = bind-Avoids rest _ h (λ out. tt)

  pub scalars-Avoids :
      (op : Operator) (r : Static) (input : List (Spanset S))
      → Avoids (filter_scalars rt op r input)
  unfolding filter_scalars Avoids
  scalars-Avoids op r [] = tt
  scalars-Avoids op r (ss ∷ sss) =
      compared-Avoids op ss (filter_scalars rt op r sss) (bin_op rt op ss.scalar r)
        (scalars-Avoids op r sss)

module _ {S : Type 0} where
  evaluated-Avoids :
      (xs : List S) (f : S → List S → List S)
      → Avoids (elim xs as (λ x. Result EvaluateErr (List S)) [
        | [] ↦ ok []
        | s ∷ ss ↦ ok (f s (s ∷ ss))
      ])
  unfolding Avoids
  evaluated-Avoids [] f = tt
  evaluated-Avoids (s ∷ ss) f = tt

  join-Avoids :
      (lhs rhs : List (Spanset S)) (f : S → List S → List S → List S)
      → Avoids (join_spansets lhs rhs f)
  unfolding join_spansets Avoids
  join-Avoids lhs [] f = tt
  join-Avoids lhs (r ∷ r' ∷ rs) f = λ e. cc e
  join-Avoids (l ∷ l' ∷ ls) (r ∷ []) f = λ e. cc e
  join-Avoids [] (r ∷ []) f = evaluated-Avoids r.spans (λ s ss. f s [] ss)
  join-Avoids (l ∷ []) (r ∷ []) f = evaluated-Avoids r.spans (λ s ss. f s l.spans ss)

  related-Avoids :
      (op : Operator) (rel : Option (Relation S)) (lhs rhs : List (Spanset S)) (buffer : List S)
      → Avoids (related_spans op rel lhs rhs buffer)
  unfolding related_spans Avoids
  related-Avoids op none lhs rhs buffer = λ e. cc e
  related-Avoids op (some rel) lhs rhs buffer = join-Avoids lhs rhs (λ s l r. rel s l r buffer)

  chosen-Avoids :
      (f : Option (List (Spanset S) → List (Spanset S) → List S)) (lhs rhs : List (Spanset S))
      (rest : Result EvaluateErr (List S))
      → Avoids rest
      → Avoids
          (elim f as (λ x. Result EvaluateErr (List S)) [ some f ↦ ok (f lhs rhs) | none ↦ rest ])
  unfolding Avoids
  chosen-Avoids none lhs rhs rest h = h
  chosen-Avoids (some f) lhs rhs rest h = tt

  pub loop_Avoids :
      (m : SpanMethods S) (op : Operator) (left right : Evaluation S)
      → ((input : List (Spanset S)) → Avoids (left input))
      → ((input : List (Spanset S)) → Avoids (right input))
      → (buffer : List S) (input output : List (Spanset S))
      → Avoids (operation_loop m op left right buffer input output)
  unfolding operation_loop operation_spans Avoids
  loop_Avoids m op left right h k buffer [] output = tt
  loop_Avoids m op left right h k buffer (ss ∷ sss) output =
      bind-Avoids (left (ss ∷ [])) _ (h (ss ∷ [])) (λ lhs.
        bind-Avoids (right (ss ∷ [])) _ (k (ss ∷ [])) (λ rhs.
          bind-Avoids (operation_spans m op lhs rhs buffer) _
            (chosen-Avoids (set_operation m op) lhs rhs
              (related_spans op (relation m op) lhs rhs buffer)
              (related-Avoids op (relation m op) lhs rhs buffer))
            (λ matching. loop_Avoids m op left right h k matching sss _)))
