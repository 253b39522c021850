-- ===== src/Optimizer.antt =====
-- traceql/util.go, type branchOptimizer: the learned order of the operands of AND and OR. A clock
-- gives the costs that the coming measurements report, in nanoseconds.
pub mod Choice
pub mod Best
use traceql_syntax.Base.{
  ℕ, zero, suc, ◌+◌, ◌-◌, Bool, true, false, not, List, [], ◌∷◌, ltb, get_elem?, set, none, some,
  if◌then◌else◌,
}

pub record BranchOptimizer : Type 0 where
  pub last : List ℕ
  pub totals : List ℕ
  pub recording : Bool
  pub samples_remaining : ℕ

abbrev pub Clock : Type 0
Clock = ℕ → ℕ

-- The zero value of the type, which never records.
abbrev pub idle : BranchOptimizer
idle = record { last = []; totals = []; recording = false; samples_remaining = 0 }

abbrev pub left_branch : ℕ
left_branch = 0

abbrev pub right_branch : ℕ
right_branch = 1

abbrev zeros : ℕ → List ℕ
zeros zero = []
zeros (suc n) = 0 ∷ zeros n

unfoldable pub new_branch_predictor : ℕ → ℕ → BranchOptimizer
new_branch_predictor num_branches num_samples = record {
  last = zeros num_branches;
  totals = zeros num_branches;
  recording = true;
  samples_remaining = num_samples;
}

-- Start and Finish around a branch that took `cost`.
unfoldable pub finish : ℕ → ℕ → BranchOptimizer → BranchOptimizer
finish branch cost b = record b { last = set b.last branch cost }

abbrev pub cost_of : List ℕ → ℕ → ℕ
cost_of costs branch = elim (get_elem? costs branch) [ none ↦ 0 | some c ↦ c ]

unfoldable pub penalize : ℕ → BranchOptimizer → BranchOptimizer
penalize branch b = record b {
  totals = set b.totals branch (cost_of b.totals branch + cost_of b.last branch);
}

-- The result is whether the sampling is done. The counter is an int: below 1 it ends the recording.
unfoldable pub sampled : BranchOptimizer → BranchOptimizer × Bool
sampled b =
    let left = b.samples_remaining - 1 in
    let more = ltb 0 left in (record b { samples_remaining = left; recording = more }, not more)

-- The loop over the totals from the second on: the index of the best so far and its total.
unfoldable pub best_from : ℕ → ℕ → ℕ → List ℕ → ℕ
best_from best_index best_total i [] = best_index
best_from best_index best_total i (t ∷ ts) =
    best_from (if ltb t best_total then i else best_index)
      (if ltb t best_total then t else best_total) (suc i) ts

unfoldable pub optimal_branch : List ℕ → ℕ
unfolding best_from
optimal_branch [] = 0
optimal_branch (t ∷ ts) = best_from 0 t 1 ts
