-- ===== src/Validate/Typed.antt =====
-- traceql/ast_validate.go with traceql/ast_execute.go: a valid expression is executed to values of
-- its type, and stays valid.
use traceql_syntax.Base.{
  Bool, true, if◌then◌else◌, false, List, Option, none, some, Result, ok, err, ◌>>=◌, ◌>>◌, ◌≡◌,
  refl,
}
use traceql_syntax.Runtime.{Runtime}
use traceql_syntax.StaticType.{type_boolean}
use traceql_syntax.Operator.{Operator, binary_types_valid, unary_types_valid}
use traceql_syntax.Static.{Static}
use traceql_syntax.Attribute.{Attribute, intrinsic_type}
use traceql_syntax.Regexp.{Regexp}
use traceql_syntax.Optimizer.{BranchOptimizer, Clock, left_branch, right_branch}
use traceql_syntax.Expr.{
  Expr, binary, unary, unary_ref, static, attribute, implied_type, is_existence, cond_type,
  first_known,
}
use traceql_syntax.Execute.{
  Span, Run, execute, after_left, after_right, continue, short_circuit, record_cost, learn,
  unary_value, attribute_value,
}
use traceql_syntax.Execute.Values.{Err}
use traceql_syntax.Execute.Arrays.{execute_values}
use traceql_syntax.Validate.{
  validate, validate_operation, validate_unary, validate_nil_test, guard, illegal_types,
}
use traceql_syntax.Validate.Fits.{
  fits, Fits, fits-type_of, execute_values-Fits, short_circuit-Fits, unary_value-Fits,
}
use traceql_syntax.Validate.Kept.{
  Kept, both_ok, guard_ok, binary-Kept, exchanged-Kept, learn-valid, Kept-refl, unary-Kept,
  unary_ref-Kept,
}

-- What a span answers for an attribute goes with the type of the intrinsic: nil does, and anything
-- for an attribute that is not intrinsic.
abbrev pub IsTypedSpan : Span → Type 0
IsTypedSpan span =
    (a : Attribute) → fits (intrinsic_type a.intrinsic) (attribute_value (span a)) ≡ true

-- A run of an expression: an error or a value of its type, and an expression that is valid and of
-- the same type.
abbrev pub IsTypedRun : Runtime → Expr → Run → Type 0
IsTypedRun rt e run = Fits (implied_type e) run.result × Kept rt e run.expr

module _ (rt : Runtime) (op : Operator) (l r : Expr) (c0 : List Regexp) (b0 : BranchOptimizer)
    (valid : validate_operation rt op l r ≡ ok tt) where
  swapped-Kept :
      (l' r' : Expr) (c : List Regexp) (b : BranchOptimizer) (swap : Bool)
      → (swap ≡ true → binary_types_valid op type_boolean type_boolean ≡ true)
      → Kept rt l l'
      → Kept rt r r'
      → Kept rt (binary op l r c0 b0) (if swap then binary op r' l' c b else binary op l' r' c b)
  swapped-Kept l' r' c b true h kl kr =
      exchanged-Kept rt op l r l' r' c0 c b0 b valid kl kr (h refl)
  swapped-Kept l' r' c b false h kl kr = binary-Kept rt op l r l' r' c0 c b0 b valid kl kr

  after_right-typed :
      (lhs : Static) (l' r' : Expr) (b : BranchOptimizer) (k : Clock) (res : Result Err Static)
      → fits (implied_type l) lhs ≡ true
      → Kept rt l l'
      → Fits (implied_type r) res
      → Kept rt r r'
      → IsTypedRun rt (binary op l r c0 b0) (after_right rt op c0 lhs l' b r' k res)
  unfolding after_right implied_type
  after_right-typed lhs l' r' b k (err x) hl kl hr kr =
      (tt, binary-Kept rt op l r l' r' c0 c0 b0 b valid kl kr)
  after_right-typed lhs l' r' b k (ok rhs) hl kl hr kr =
      let b1 = (record_cost right_branch b k).0 in
      let (b2, swap) = learn op lhs rhs b1 in
      (
        execute_values-Fits rt op (implied_type l) (implied_type r) lhs rhs c0 hl hr,
        swapped-Kept l' r' (execute_values rt op lhs rhs c0).1 b2 swap (learn-valid op lhs rhs b1)
            kl kr,
      )

  continue-typed :
      (b : BranchOptimizer) (l' : Expr) (lhs : Static) (k : Clock) (run_right : Clock → Run)
      (recording : Bool) (settled : Option Static)
      → short_circuit recording op lhs ≡ settled
      → validate rt r ≡ ok tt
      → fits (implied_type l) lhs ≡ true
      → Kept rt l l'
      → ((k' : Clock) → IsTypedRun rt r (run_right k'))
      → IsTypedRun rt (binary op l r c0 b0) (continue rt op c0 b l' r lhs k run_right settled)
  unfolding continue implied_type
  continue-typed b l' lhs k run_right recording (some v) e vr hl kl typed = (
    short_circuit-Fits recording op lhs v (first_known (implied_type l) (implied_type r)) e,
    binary-Kept rt op l r l' r c0 c0 b0 b valid kl (Kept-refl rt r vr),
  )
  continue-typed b l' lhs k run_right recording none e vr hl kl typed =
      let right = run_right k in
      after_right-typed lhs l' right.expr b right.clock right.result hl kl (typed k).0 (typed k).1

  after_left-typed :
      (b : BranchOptimizer) (l' : Expr) (k : Clock) (run_right : Clock → Run)
      (res : Result Err Static)
      → validate rt r ≡ ok tt
      → Fits (implied_type l) res
      → Kept rt l l'
      → ((k' : Clock) → IsTypedRun rt r (run_right k'))
      → IsTypedRun rt (binary op l r c0 b0) (after_left rt op c0 b l' r k run_right res)
  unfolding after_left
  after_left-typed b l' k run_right (err x) vr hl kl typed =
      (tt, binary-Kept rt op l r l' r c0 c0 b0 b valid kl (Kept-refl rt r vr))
  after_left-typed b l' k run_right (ok lhs) vr hl kl typed =
      let (b1, k1) = record_cost left_branch b k in
      continue-typed b1 l' lhs k1 run_right b.recording (short_circuit b.recording op lhs) refl vr
        hl kl typed

unary_legal :
    (op : Operator) (e : Expr)
    → validate_unary op e ≡ ok tt
    → unary_types_valid op (implied_type e) ≡ true
unfolding validate_unary
unary_legal op e h =
    guard_ok (unary_types_valid op (implied_type e)) illegal_types
      (both_ok (validate_nil_test op e)
        (guard (unary_types_valid op (implied_type e)) illegal_types) h).1

unary-Fits :
    (rt : Runtime) (op : Operator) (e : Expr) (res : Result Err Static)
    → validate_unary op e ≡ ok tt
    → Fits (implied_type e) res
    → Fits (cond_type (is_existence op) (implied_type e)) (res >>= unary_value rt op)
unary-Fits rt op e (ok v) h k = unary_value-Fits rt op (implied_type e) v (unary_legal op e h) k
unary-Fits rt op e (err x) h k = tt

execute_typed :
    (rt : Runtime) (e : Expr) (span : Span) (k : Clock)
    → IsTypedSpan span
    → validate rt e ≡ ok tt
    → IsTypedRun rt e (execute rt e span k)
unfolding execute validate implied_type
execute_typed rt (binary op l r c b) span k typed valid =
    let (vl, v) = both_ok (validate rt l) (validate rt r >> validate_operation rt op l r) valid in
    let (vr, vo) = both_ok (validate rt r) (validate_operation rt op l r) v in
    let left = execute_typed rt l span k typed vl in
    let right = λ (k' : Clock). execute_typed rt r span k' typed vr in
    let run = execute rt l span k in
    after_left-typed rt op l r c b vo b run.expr run.clock (λ k'. execute rt r span k') run.result
      vr left.0 left.1 right
execute_typed rt (unary op e) span k typed valid =
    let (ve, v) = both_ok (validate rt e) (validate_unary op e) valid in
    let rec = execute_typed rt e span k typed ve in
    let run = execute rt e span k in
    (unary-Fits rt op e run.result v rec.0, unary-Kept rt op e run.expr v rec.1)
execute_typed rt (unary_ref op e) span k typed valid =
    let (ve, v) = both_ok (validate rt e) (validate_unary op e) valid in
    let rec = execute_typed rt e span k typed ve in
    let run = execute rt e span k in
    (unary-Fits rt op e run.result v rec.0, unary_ref-Kept rt op e run.expr v rec.1)
execute_typed rt (static s) span k typed valid = (fits-type_of s, Kept-refl rt (static s) valid)
execute_typed rt (attribute a) span k typed valid = (typed a, Kept-refl rt (attribute a) valid)

-- On a span whose answers go with the types of the intrinsics, a valid expression is executed in any
-- state, that is, with any patterns compiled, any state of the optimizers and any clock, to an error
-- or a value that goes with the type that is implied for it: a bool where that type is boolean, a
-- number, nil or false where it is that of a number. What is left of the expression is valid and has
-- the same implied type.
pub execute-Fits :
    (rt : Runtime) (e : Expr) (span : Span) (k : Clock)
    → IsTypedSpan span
    → validate rt e ≡ ok tt
    → Fits (implied_type e) (execute rt e span k).result
      × (validate rt (execute rt e span k).expr ≡ ok tt)
      × (implied_type (execute rt e span k).expr ≡ implied_type e)
execute-Fits rt e span k typed valid =
    let (result, kept) = execute_typed rt e span k typed valid in
    (result, kept.valid, kept.same_type)
