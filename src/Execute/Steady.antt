-- ===== src/Execute/Steady.antt =====
-- traceql/ast_execute.go: expressions that keep their values when their AND and OR operands are
-- exchanged.
use traceql_syntax.Base.{
  Bool, true, false, [], Bool-cases, inl, inr, absurd_test, Result, ok, ◌>>=◌, ◌≡◌, refl, sym, ◌∙◌,
  arith,
}
use traceql_syntax.Runtime.{Runtime}
use traceql_syntax.Operator.{Operator, op_and, op_or}
use traceql_syntax.Static.{Static, static_bool}
use traceql_syntax.Optimizer.{BranchOptimizer}
use traceql_syntax.Expr.{Expr, binary, unary, unary_ref, static, attribute}
use traceql_syntax.Execute.{Span, short_circuit}
use traceql_syntax.Execute.Values.{Err}
use traceql_syntax.Execute.Arrays.{execute_values}
use traceql_syntax.Execute.Settled.{value, operation_value}
use traceql_syntax.Execute.Transparent.{IsBool, IsFresh}
use traceql_syntax.Execute.Patternless.{takes_pattern}

abbrev pub is_junction : Operator → Bool
is_junction op_and = true
is_junction op_or = true
is_junction _ = false

junction_comm :
    (rt : Runtime) (op : Operator) (x y : Result Err Static)
    → is_junction op ≡ true
    → IsBool x
    → IsBool y
    → (y >>= λ v. operation_value rt op v x) ≡ (x >>= λ v. operation_value rt op v y)
unfolding short_circuit execute_values
junction_comm rt op_and (ok (static_bool true)) (ok (static_bool true)) j hx hy = refl
junction_comm rt op_and (ok (static_bool true)) (ok (static_bool false)) j hx hy = refl
junction_comm rt op_and (ok (static_bool false)) (ok (static_bool true)) j hx hy = refl
junction_comm rt op_and (ok (static_bool false)) (ok (static_bool false)) j hx hy = refl
junction_comm rt op_or (ok (static_bool true)) (ok (static_bool true)) j hx hy = refl
junction_comm rt op_or (ok (static_bool true)) (ok (static_bool false)) j hx hy = refl
junction_comm rt op_or (ok (static_bool false)) (ok (static_bool true)) j hx hy = refl
junction_comm rt op_or (ok (static_bool false)) (ok (static_bool false)) j hx hy = refl
junction_comm rt op x y j hx hy = ground arith

module _ (rt : Runtime) (P : Span → Type 0) where
  -- The operands of each AND and OR have bools for their values on the spans, only ANDs and ORs
  -- record, no operator takes a pattern, and none is compiled.
  abbrev pub IsSteady : Expr → Type 0
  IsSteady (binary op l r c b) =
      IsSteady l
      × IsSteady r
      × (c ≡ [])
      × (takes_pattern op ≡ false)
      × (is_junction op ≡ false → b.recording ≡ false)
      × (is_junction op ≡ true
          → (span : Span) → P span
          → IsBool (value rt l span) × IsBool (value rt r span))
  IsSteady (unary op e) = IsSteady e
  IsSteady (unary_ref op e) = IsSteady e
  IsSteady _ = Unit

  -- What an execution leaves of an expression is steady, and has the values of the expression.
  abbrev pub Stays : Expr → Expr → Type 0
  Stays e e' = IsSteady e' × ((span : Span) → P span → value rt e' span ≡ value rt e span)

  pub IsSteady-IsFresh : (e : Expr) (span : Span) → P span → IsSteady e → IsFresh rt span e
  IsSteady-IsFresh (binary op l r c b) span p (hl, hr, hc, plain, quiet, bools) = (
    IsSteady-IsFresh l span p hl,
    IsSteady-IsFresh r span p hr,
    hc,
    λ on. elim (Bool-cases (is_junction op)) [
      | inl j ↦ bools j span p
      | inr n ↦ absurd_test (sym on ∙ quiet n)
    ],
  )
  IsSteady-IsFresh (unary op e) span p h = IsSteady-IsFresh e span p h
  IsSteady-IsFresh (unary_ref op e) span p h = IsSteady-IsFresh e span p h
  IsSteady-IsFresh (static s) span p h = tt
  IsSteady-IsFresh (attribute a) span p h = tt

  module _ (op : Operator) (l r l' r' : Expr) (b0 b : BranchOptimizer)
      (steady : IsSteady (binary op l r [] b0)) (kl : Stays l l') (kr : Stays r r')
      (quiet : is_junction op ≡ false → b.recording ≡ false) where
    pub straight-Stays : Stays (binary op l r [] b0) (binary op l' r' [] b)
    unfolding value
    straight-Stays = (
      (
        kl.0,
        kr.0,
        refl,
        steady.3,
        quiet,
        λ j span p. rw (kl.1 span p, kr.1 span p) (steady.5 j span p),
      ),
      λ span p. rw (kl.1 span p, kr.1 span p) refl,
    )

    pub exchanged-Stays : is_junction op ≡ true → Stays (binary op l r [] b0) (binary op r' l' [] b)
    unfolding value
    exchanged-Stays j = (
      (
        kr.0,
        kl.0,
        refl,
        steady.3,
        quiet,
        λ j span p. rw (kl.1 span p, kr.1 span p) ((steady.5 j span p).1, (steady.5 j span p).0),
      ),
      λ span p.
          rw (kl.1 span p, kr.1 span p)
            (junction_comm rt op (value rt l span) (value rt r span) j (steady.5 j span p).0
              (steady.5 j span p).1),
    )

  pub Stays-refl : (e : Expr) → IsSteady e → Stays e e
  Stays-refl e h = (h, λ span p. refl)
