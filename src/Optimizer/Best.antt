-- ===== src/Optimizer/Best.antt =====
-- The branch that the optimizer prefers is one of least total.
use traceql_syntax.Base.{
  ℕ, suc, ◌+◌, ◌<◌, ◌≤◌, List, [], ◌∷◌, All, ltb, get_elem?, some, ◌≡◌, refl, arith, Bool-cases,
  inl, inr, ◌⊎◌,
}
use traceql_syntax.Optimizer.{best_from, optimal_branch}

abbrev Below : ℕ → List ℕ → Type 0
Below m ts = All (λ t. m ≤ t) ts

Below-trans : (m n : ℕ) (ts : List ℕ) → m ≤ n → Below n ts → Below m ts
Below-trans m n [] h b = tt
Below-trans m n (t ∷ ts) h b = (omega (arith, b.0), Below-trans m n ts h b.1)

-- The best so far stays, or some later total is less than it and least.
abbrev Chosen : ℕ → ℕ → ℕ → List ℕ → ℕ → Type 0
Chosen b m i ts k =
    ((k ≡ b) × Below m ts)
    ⊎ ((j x : ℕ) × (k ≡ i + j) × (get_elem? ts j ≡ some x) × (x < m) × Below x ts)

best_from-Chosen : (b m i : ℕ) (ts : List ℕ) → Chosen b m i ts (best_from b m i ts)
unfolding best_from
best_from-Chosen b m i [] = inl (refl, tt)
best_from-Chosen b m i (t ∷ ts) = elim (Bool-cases (ltb t m)) [
  | inl less ↦ rw less (elim (best_from-Chosen i t (suc i) ts) [
    | inl (e, h) ↦ inr (0, t, omega (arith, e), refl, ground arith, (omega arith, h))
    | inr (j, x, e, g, h, l) ↦ inr (suc j, x, omega (arith, e), g, ground arith, (omega arith, l))
  ])
  | inr more ↦ rw more (elim (best_from-Chosen b m (suc i) ts) [
    | inl (e, h) ↦ inl (e, (ground arith, h))
    | inr (j, x, e, g, h, l) ↦ inr (suc j, x, omega (arith, e), g, h, (ground arith, l))
  ])
]

-- For totals of at least one branch, the optimal branch is one of them and no total is less than
-- its total.
optimal_branch-IsLeast :
    (t : ℕ) (ts : List ℕ)
    → (x : ℕ) × (get_elem? (t ∷ ts) (optimal_branch (t ∷ ts)) ≡ some x) × All (λ u. x ≤ u) (t ∷ ts)
unfolding optimal_branch
optimal_branch-IsLeast t ts = elim (best_from-Chosen 0 t 1 ts) [
  | inl (e, h) ↦ (t, rw e refl, (omega arith, h))
  | inr (j, x, e, g, h, l) ↦
      let e' : optimal_branch (t ∷ ts) ≡ suc j = omega (arith, e) in (x, rw e' g, (omega arith, l))
]
