-- ===== src/Execute/Repeated.antt =====
-- traceql/ast_execute.go: what an execution leaves of an expression that keeps its values when operands
-- are exchanged.
use traceql_syntax.Base.{
  Bool, true, false, [], absurd_test, ℕ, Option, none, some, Result, ok, err, ◌≡◌, refl, sym, ◌∙◌,
  if◌then◌else◌,
}
use traceql_syntax.Runtime.{Runtime}
use traceql_syntax.Operator.{Operator}
use traceql_syntax.Static.{Static, static_bool}
use traceql_syntax.Optimizer.{BranchOptimizer, Clock, left_branch, right_branch}
use traceql_syntax.Expr.{Expr, binary, unary, unary_ref, static, attribute}
use traceql_syntax.Execute.{
  Span, Run, short_circuit, execute, after_left, after_right, continue, record_cost, learn,
}
use traceql_syntax.Execute.Values.{Err}
use traceql_syntax.Execute.Settled.{value}
use traceql_syntax.Execute.Patternless.{execute_values-patternless}
use traceql_syntax.Execute.Steady.{
  is_junction, IsSteady, Stays, straight-Stays, exchanged-Stays, Stays-refl,
}

if_false : (a b : Bool) → (a ≡ false → b ≡ false) → b ≡ true → a ≡ true
if_false true b h e = refl
if_false false b h e = absurd_test (sym e ∙ h refl)

record_cost-quiet :
    (branch : ℕ) (b : BranchOptimizer) (k : Clock)
    → b.recording ≡ false
    → (record_cost branch b k).0.recording ≡ false
unfolding record_cost
record_cost-quiet branch b k h = rw h refl

learn-quiet :
    (op : Operator) (l r : Static) (b : BranchOptimizer)
    → b.recording ≡ false
    → ((learn op l r b).0.recording ≡ false) × ((learn op l r b).1 ≡ false)
unfolding learn
learn-quiet op (static_bool l) (static_bool r) b h = rw h (refl, refl)
learn-quiet op _ _ b h = (h, refl)

module _ (rt : Runtime) (P : Span → Type 0) where
  module _ (op : Operator) (l r : Expr) (b0 : BranchOptimizer)
      (steady : IsSteady rt P (binary op l r [] b0)) where
    abbrev IsQuiet : BranchOptimizer → Type 0
    IsQuiet b = is_junction op ≡ false → b.recording ≡ false

    swapped-Stays :
        (l' r' : Expr) (b : BranchOptimizer) (swap : Bool)
        → Stays rt P l l'
        → Stays rt P r r'
        → IsQuiet b
        → (swap ≡ true → is_junction op ≡ true)
        → Stays rt P
            (binary op l r [] b0)
            (if swap then binary op r' l' [] b else binary op l' r' [] b)
    swapped-Stays l' r' b true kl kr quiet j =
        exchanged-Stays rt P op l r l' r' b0 b steady kl kr quiet (j refl)
    swapped-Stays l' r' b false kl kr quiet j =
        straight-Stays rt P op l r l' r' b0 b steady kl kr quiet

    after_right-Stays :
        (lhs : Static) (l' r' : Expr) (b : BranchOptimizer) (k : Clock) (res : Result Err Static)
        → Stays rt P l l'
        → Stays rt P r r'
        → IsQuiet b
        → Stays rt P (binary op l r [] b0) (after_right rt op [] lhs l' b r' k res).expr
    unfolding after_right
    after_right-Stays lhs l' r' b k (err x) kl kr quiet =
        straight-Stays rt P op l r l' r' b0 b steady kl kr quiet
    after_right-Stays lhs l' r' b k (ok rhs) kl kr quiet =
        let b1 = (record_cost right_branch b k).0 in
        let (b2, swap) = learn op lhs rhs b1 in
        let still : is_junction op ≡ false → (b2.recording ≡ false) × (swap ≡ false) =
          λ n. learn-quiet op lhs rhs b1 (record_cost-quiet right_branch b k (quiet n)) in
        rw (execute_values-patternless rt op lhs rhs steady.3) (
          swapped-Stays l' r' b2 swap kl kr (λ n. (still n).0)
            (if_false (is_junction op) swap (λ n. (still n).1)))

    continue-Stays :
        (b : BranchOptimizer) (l' : Expr) (lhs : Static) (k : Clock) (run_right : Clock → Run)
        (settled : Option Static)
        → Stays rt P l l'
        → ((k' : Clock) → Stays rt P r (run_right k').expr)
        → IsQuiet b
        → Stays rt P (binary op l r [] b0) (continue rt op [] b l' r lhs k run_right settled).expr
    unfolding continue
    continue-Stays b l' lhs k run_right (some v) kl kr quiet =
        straight-Stays rt P op l r l' r b0 b steady kl (Stays-refl rt P r steady.1) quiet
    continue-Stays b l' lhs k run_right none kl kr quiet =
        let right = run_right k in
        after_right-Stays lhs l' right.expr b right.clock right.result kl (kr k) quiet

    after_left-Stays :
        (b : BranchOptimizer) (l' : Expr) (k : Clock) (run_right : Clock → Run)
        (res : Result Err Static)
        → Stays rt P l l'
        → ((k' : Clock) → Stays rt P r (run_right k').expr)
        → IsQuiet b
        → Stays rt P (binary op l r [] b0) (after_left rt op [] b l' r k run_right res).expr
    unfolding after_left
    after_left-Stays b l' k run_right (err x) kl kr quiet =
        straight-Stays rt P op l r l' r b0 b steady kl (Stays-refl rt P r steady.1) quiet
    after_left-Stays b l' k run_right (ok lhs) kl kr quiet =
        let (b1, k1) = record_cost left_branch b k in
        continue-Stays b1 l' lhs k1 run_right (short_circuit b.recording op lhs) kl kr
          (λ n. record_cost-quiet left_branch b k (quiet n))

  pub execute-Stays :
      (e : Expr) (span : Span) (k : Clock)
      → IsSteady rt P e
      → Stays rt P e (execute rt e span k).expr
  unfolding execute value
  execute-Stays (binary op l r c b) span k (hl, hr, hc, plain, quiet, bools) =
      let run = execute rt l span k in
      rw hc (
        after_left-Stays op l r b (hl, hr, refl, plain, quiet, bools) b run.expr run.clock
          (λ k'. execute rt r span k') run.result (execute-Stays l span k hl)
          (λ k'. execute-Stays r span k' hr) quiet)
  execute-Stays (unary op e) span k h =
      let kept = execute-Stays e span k h in (kept.0, λ s p. rw (kept.1 s p) refl)
  execute-Stays (unary_ref op e) span k h =
      let kept = execute-Stays e span k h in (kept.0, λ s p. rw (kept.1 s p) refl)
  execute-Stays (static s) span k h = (tt, λ s p. refl)
  execute-Stays (attribute a) span k h = (tt, λ s p. refl)
