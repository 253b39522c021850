-- ===== src/Optimizer/Choice.antt =====
-- Which operand the optimizer puts first after one sample.
use traceql_syntax.Base.{ℕ, ◌<◌, true, false, [], ◌∷◌, ◌≡◌, arith}
use traceql_syntax.Operator.{op_and, op_or}
use traceql_syntax.Optimizer.{BranchOptimizer, left_branch, right_branch, optimal_branch}
use traceql_syntax.Execute.{charge}

-- After a first sample with costs for both operands in which the left operand alone decided: AND
-- keeps the left operand first, if the right one took time, and OR puts the right one first, if the
-- left one took time.
pub optimal-charge :
    (b : BranchOptimizer) (left_cost right_cost : ℕ)
    → b.last ≡ left_cost ∷ right_cost ∷ []
    → b.totals ≡ 0 ∷ 0 ∷ []
    → (0 < right_cost → optimal_branch (charge op_and false true b).totals ≡ left_branch)
      × (0 < left_cost → optimal_branch (charge op_or true false b).totals ≡ right_branch)
unfolding charge optimal_branch
optimal-charge b m n hl ht = (λ h. rw (hl, ht) (ground arith), λ h. rw (hl, ht) (ground arith))
