-- ===== src/Execute/Elements.antt =====
-- The loop of an array operation, on patterns not compiled before: without errors it asks whether
-- some element passes the test, or whether all do.
use traceql_syntax.Base.{
  ℕ, zero, suc, ◌≤◌, Bool, true, false, ◌&&◌, List, [], ◌∷◌, none, ◌==◌, length, get_elem?, any,
  all, All, Result, ok, err, ◌≡◌, refl, arith, inl, inr, Bool-cases, length-append,
}
use traceql_syntax.Runtime.{Runtime}
use traceql_syntax.Operator.{Operator}
use traceql_syntax.Static.{Static, static_bool}
use traceql_syntax.Regexp.{Regexp}
use traceql_syntax.Execute.Values.{Err, bin_op_execute_scalar}
use traceql_syntax.Execute.Arrays.{keep_at, is_match, element_step, array_loop, counted}

-- Whether the scalar passes the operator with the element on its right.
abbrev pub passes : Result Err Static → Bool
passes (ok v) = is_match v
passes (err x) = false

unfoldable pub test : Runtime → Operator → Static → Static → Bool
unfolding bin_op_execute_scalar
test rt op x e = passes (bin_op_execute_scalar rt op x e []).0

-- The operator gives a bool on these two values, and keeps at most one pattern.
abbrev pub Tests : Runtime → Operator → Static → Static → Type 0
Tests rt op x e =
    ((bin_op_execute_scalar rt op x e []).0 ≡ ok (static_bool (test rt op x e)))
    × (length (bin_op_execute_scalar rt op x e []).1 ≤ 1)

get_elem?-past {ℓ} : {A : Type ℓ} (c : List A) (i : ℕ) → length c ≤ i → get_elem? c i ≡ none
get_elem?-past [] i h = refl
get_elem?-past (x ∷ c) zero h = absurd (omega arith)
get_elem?-past (x ∷ c) (suc i) h = get_elem?-past c i (omega arith)

length-keep_at :
    (c new : List Regexp) (i : ℕ) → length c ≤ i → length new ≤ 1 → length (keep_at c i new) ≤ suc i
length-keep_at c new i h b = elim (Bool-cases (length c == i)) [
  | inl e ↦ rw e (omega (arith, length-append {0} c new))
  | inr e ↦ rw e (omega arith)
]

module _ (rt : Runtime) (op : Operator) (x : Static) where
  element_step_fresh :
      (e : Static) (c : List Regexp) (i : ℕ)
      → length c ≤ i
      → element_step rt op false x e c i ≡ bin_op_execute_scalar rt op x e []
  unfolding element_step
  element_step_fresh e c i h = rw (get_elem?-past c i h, element_step)

  -- Without `match_all` the loop finds a match exactly when some element passes.
  pub loop_any :
      (es : List Static) (c : List Regexp) (i : ℕ)
      → length c ≤ i
      → All (Tests rt op x) es
      → (counted rt false (array_loop rt op false false x es c i 0)).0
        ≡ ok (static_bool (any (test rt op x) es))
  unfolding array_loop any counted
  loop_any [] c i h t = refl
  loop_any (e ∷ es) c i h t =
      let new = (bin_op_execute_scalar rt op x e []).1 in
      rw (element_step_fresh e c i h, t.0.0)
        (elim (Bool-cases (test rt op x e)) [
          | inl yes' ↦ rw yes' refl
          | inr no' ↦
              rw no' (loop_any es (keep_at c i new) (suc i) (length-keep_at c new i h t.0.1) t.1)
        ])

  -- With `match_all` every element is looked at; before element i, m elements have matched.
  pub loop_all :
      (es : List Static) (c : List Regexp) (i m : ℕ)
      → length c ≤ i
      → m ≤ i
      → All (Tests rt op x) es
      → (counted rt true (array_loop rt op true false x es c i m)).0
        ≡ ok (static_bool (m == i && all (test rt op x) es))
  unfolding array_loop all counted
  loop_all [] c i m h k t = ground arith
  loop_all (e ∷ es) c i m h k t =
      let new = (bin_op_execute_scalar rt op x e []).1 in
      let fits = length-keep_at c new i h t.0.1 in
      rw (element_step_fresh e c i h, t.0.0)
        (elim (Bool-cases (test rt op x e)) [
          | inl yes' ↦
              rw yes' (
                ground
                  (arith, loop_all es (keep_at c i new) (suc i) (suc m) fits (omega arith) t.1))
          | inr no' ↦
              rw no'
                (ground (arith, loop_all es (keep_at c i new) (suc i) m fits (omega arith) t.1))
        ])
