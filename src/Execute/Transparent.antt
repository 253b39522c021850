-- ===== src/Execute/Transparent.antt =====
-- The optimizer and the clock do not change a result: execution gives the settled value, if no
-- pattern was compiled before and the operands of a node that records are bools.
use traceql_syntax.Base.{
  Bool, true, false, [], Option, none, some, Result, ok, err, ◌>>=◌, ◌≡◌, refl, ◌∙◌, Bool-cases,
  inl, inr,
}
use traceql_syntax.Runtime.{Runtime}
use traceql_syntax.Operator.{Operator, op_and, op_or}
use traceql_syntax.Static.{Static, static_bool}
use traceql_syntax.Optimizer.{BranchOptimizer, Clock, left_branch}
use traceql_syntax.Expr.{Expr, binary, unary, unary_ref, static, attribute}
use traceql_syntax.Execute.{
  Span, Run, short_circuit, execute, after_left, after_right, continue, record_cost,
}
use traceql_syntax.Execute.Values.{Err}
use traceql_syntax.Execute.Arrays.{execute_values}
use traceql_syntax.Execute.Settled.{value, settle, operation_value}

abbrev pub IsBool : Result Err Static → Type 0
IsBool (ok (static_bool b)) = Unit
IsBool _ = ⊥

-- No pattern is compiled yet, and a node that records has bools for operands.
abbrev pub IsFresh : Runtime → Span → Expr → Type 0
IsFresh rt span (binary op l r c b) =
    IsFresh rt span l
    × IsFresh rt span r
    × (c ≡ [])
    × (b.recording ≡ true → IsBool (value rt l span) × IsBool (value rt r span))
IsFresh rt span (unary op e) = IsFresh rt span e
IsFresh rt span (unary_ref op e) = IsFresh rt span e
IsFresh rt span _ = Unit

-- Two bools: the short circuit gives what the operation gives.
short_circuit_sound :
    (rt : Runtime) (op : Operator) (a b : Bool)
    → (execute_values rt op (static_bool a) (static_bool b) []).0
      ≡ operation_value rt op (static_bool a) (ok (static_bool b))
unfolding short_circuit execute_values
short_circuit_sound rt op_and true b = refl
short_circuit_sound rt op_and false b = refl
short_circuit_sound rt op_or true b = refl
short_circuit_sound rt op_or false b = refl
short_circuit_sound rt _ true b = refl
short_circuit_sound rt _ false b = refl

module _ (rt : Runtime) (op : Operator) where
  right_value :
      (lhs : Static) (l : Expr) (b : BranchOptimizer) (r : Expr) (k : Clock)
      (res : Result Err Static)
      → (after_right rt op [] lhs l b r k res).result
        ≡ (res >>= λ rhs. (execute_values rt op lhs rhs []).0)
  unfolding after_right
  right_value lhs l b r k (err x) = refl
  right_value lhs l b r k (ok rhs) = refl

  continue_value :
      (b : BranchOptimizer) (l r : Expr) (lhs : Static) (k : Clock) (run_right : Clock → Run)
      → (right : Result Err Static) → ((k' : Clock) → (run_right k').result ≡ right)
      → (settled : Option Static)
      → (continue rt op [] b l r lhs k run_right settled).result
        ≡ settle settled (right >>= λ rhs. (execute_values rt op lhs rhs []).0)
  unfolding continue
  continue_value b l r lhs k run_right right run (some v) = refl
  continue_value b l r lhs k run_right right run none =
      right_value lhs l b (run_right k).expr (run_right k).clock (run_right k).result
      ∙ rw (run k) refl

  -- While the optimizer records, both operands run; they are bools.
  recording_value :
      (l r : Expr) (b : BranchOptimizer) (k : Clock) (run_right : Clock → Run)
      → (left right : Result Err Static) → b.recording ≡ true
      → IsBool left
      → IsBool right
      → ((k' : Clock) → (run_right k').result ≡ right)
      → (after_left rt op [] b l r k run_right left).result
        ≡ (left >>= λ lhs. operation_value rt op lhs right)
  unfolding after_left short_circuit
  recording_value l r b k run_right (ok (static_bool x)) (ok (static_bool y)) on hl hr run =
      let (b', k') = record_cost left_branch b k in
      continue_value b' l r (static_bool x) k' run_right (ok (static_bool y)) run
        (short_circuit b.recording op (static_bool x))
      ∙ rw on (short_circuit_sound rt op x y)
  recording_value l r b k run_right (ok (static_bool x)) (err e) on hl hr run = absurd hr
  recording_value l r b k run_right (ok (static_bool x)) (ok _) on hl hr run = absurd hr
  recording_value l r b k run_right (err x) _ on hl hr run = absurd hl
  recording_value l r b k run_right (ok _) _ on hl hr run = absurd hl

  settled_value :
      (l r : Expr) (b : BranchOptimizer) (k : Clock) (run_right : Clock → Run)
      → (left right : Result Err Static) → b.recording ≡ false
      → ((k' : Clock) → (run_right k').result ≡ right)
      → (after_left rt op [] b l r k run_right left).result
        ≡ (left >>= λ lhs. operation_value rt op lhs right)
  unfolding after_left
  settled_value l r b k run_right (err x) right off run = refl
  settled_value l r b k run_right (ok lhs) right off run =
      let (b', k') = record_cost left_branch b k in
      continue_value b' l r lhs k' run_right right run (short_circuit b.recording op lhs)
      ∙ rw off refl

-- If no pattern of an expression is compiled yet, and the operands of each node whose optimizer
-- records have bools for their settled values on the span, then execution gives the settled value,
-- whatever the clock measures.
pub execute-eq-value :
    (rt : Runtime) (e : Expr) (span : Span) (k : Clock)
    → IsFresh rt span e
    → (execute rt e span k).result ≡ value rt e span
unfolding execute value
execute-eq-value rt (binary op l r c b) span k h =
    let left = execute-eq-value rt l span k h.0 in
    let right = λ (k' : Clock). execute-eq-value rt r span k' h.1 in
    let run = execute rt l span k in
    rw (h.2, left)
      (elim (Bool-cases b.recording) [
        | inl on ↦
            recording_value rt op run.expr r b run.clock (λ k'. execute rt r span k')
              (value rt l span) (value rt r span) on (h.3 on).0 (h.3 on).1 right
        | inr off ↦
            settled_value rt op run.expr r b run.clock (λ k'. execute rt r span k')
              (value rt l span) (value rt r span) off right
      ])
execute-eq-value rt (unary op e) span k h = rw (execute-eq-value rt e span k h) refl
execute-eq-value rt (unary_ref op e) span k h = rw (execute-eq-value rt e span k h) refl
execute-eq-value rt (static s) span k h = refl
execute-eq-value rt (attribute a) span k h = refl
