-- ===== src/Validate/Kept.antt =====
-- traceql/ast_validate.go with traceql/ast_execute.go: what an execution leaves of an expression is
-- valid again, and of the same type.
use traceql_syntax.Base.{Bool, true, false, not, List, ok, err, ◌>>◌, ◌≡◌, refl, ◌∙◌, arith}
use traceql_syntax.Runtime.{Runtime}
use traceql_syntax.StaticType.{StaticType, type_boolean, is_matching_operand}
use traceql_syntax.StaticType.Laws.{matching_operand_comm}
use traceql_syntax.Operator.{Operator, is_boolean, binary_types_valid}
use traceql_syntax.Static.{Static, static_bool}
use traceql_syntax.Regexp.{Regexp}
use traceql_syntax.Optimizer.{BranchOptimizer}
use traceql_syntax.Expr.{Expr, binary, unary, unary_ref, is_existence, implied_type}
use traceql_syntax.Execute.{learn}
use traceql_syntax.Validate.{
  Checked, Invalid, guard, validate, validate_regex, validate_nil_test, validate_operation,
  validate_unary, is_structural, illegal_operation, type_mismatch, illegal_types,
  unsupported_operation,
}

-- Both of two checks hold.
pub both_ok : (m k : Checked) → (m >> k) ≡ ok tt → (m ≡ ok tt) × (k ≡ ok tt)
both_ok (ok tt) k h = (refl, h)
both_ok (err e) k h = ground arith

both-ok : (m k : Checked) → m ≡ ok tt → k ≡ ok tt → (m >> k) ≡ ok tt
both-ok m k h i = rw (h, i) refl

pub guard_ok : (b : Bool) (e : Invalid) → guard b e ≡ ok tt → b ≡ true
guard_ok true e h = refl
guard_ok false e h = ground arith

checks_ok :
    (a b c d : Bool) (m : Checked) (e f g h : Invalid)
    → (guard a e >> (guard b f >> (guard c g >> (m >> guard d h)))) ≡ ok tt
    → (a ≡ true) × (b ≡ true) × (c ≡ true) × (m ≡ ok tt) × (d ≡ true)
checks_ok true true true true (ok tt) e f g h k = (refl, refl, refl, refl, refl)
checks_ok true true true true (err x) e f g h k = ground arith
checks_ok true true true false m e f g h k = ground arith
checks_ok true true false d m e f g h k = ground arith
checks_ok true false c d m e f g h k = ground arith
checks_ok false b c d m e f g h k = ground arith

-- The checks of a binary operation, one by one.
record IsValidOperation (rt : Runtime) (op : Operator) (l r : Expr) : Type 0 where
  no_existence : is_existence op ≡ false
  matching : is_matching_operand (implied_type l) (implied_type r) ≡ true
  legal : binary_types_valid op (implied_type l) (implied_type r) ≡ true
  pattern : validate_regex rt op r ≡ ok tt
  supported : is_structural op ≡ false

-- What an expression keeps: it is valid, of the same type, and as a right operand of a regex or as
-- the operand of a nil test it passes the same checks.
pub record Kept (rt : Runtime) (e e' : Expr) : Type 0 where
  pub same_type : implied_type e' ≡ implied_type e
  pub valid : validate rt e' ≡ ok tt
  pub pattern : (op : Operator) → validate_regex rt op e' ≡ validate_regex rt op e
  pub nil_test : (op : Operator) → validate_nil_test op e' ≡ validate_nil_test op e

operation_ok :
    (rt : Runtime) (op : Operator) (l r : Expr)
    → validate_operation rt op l r ≡ ok tt
    → IsValidOperation rt op l r
unfolding validate_operation
operation_ok rt op l r h =
    let (a, b, c, m, d) =
      checks_ok (not (is_existence op)) (is_matching_operand (implied_type l) (implied_type r))
        (binary_types_valid op (implied_type l) (implied_type r)) (not (is_structural op))
        (validate_regex rt op r) illegal_operation type_mismatch illegal_types unsupported_operation
        h in
    record {
      no_existence = ground arith;
      matching = b;
      legal = c;
      pattern = m;
      supported = ground arith;
    }

ok-operation :
    (rt : Runtime) (op : Operator) (l r : Expr)
    → IsValidOperation rt op l r
    → validate_operation rt op l r ≡ ok tt
unfolding validate_operation
ok-operation rt op l r h = rw (h.no_existence, h.matching, h.legal, h.pattern, h.supported) refl

-- An operator that is valid for two bools checks no pattern, and is boolean.
no_pattern :
    (rt : Runtime) (op : Operator) (e : Expr)
    → binary_types_valid op type_boolean type_boolean ≡ true
    → validate_regex rt op e ≡ ok tt
unfolding binary_types_valid validate_regex
no_pattern rt op e h = ground arith

boolean_op :
    (op : Operator) → binary_types_valid op type_boolean type_boolean ≡ true → is_boolean op ≡ true
unfolding binary_types_valid is_boolean
boolean_op op h = ground arith

types_valid_comm :
    (op : Operator) (t o : StaticType) → binary_types_valid op t o ≡ binary_types_valid op o t
unfolding binary_types_valid
types_valid_comm op t o = ground arith

binary_pattern :
    (rt : Runtime) (op o : Operator) (l r l' r' : Expr) (c c' : List Regexp)
    (b b' : BranchOptimizer)
    → validate_regex rt op (binary o l' r' c' b') ≡ validate_regex rt op (binary o l r c b)
unfolding validate_regex
binary_pattern rt op o l r l' r' c c' b b' = ground arith

binary_nil_test :
    (op o : Operator) (l r l' r' : Expr) (c c' : List Regexp) (b b' : BranchOptimizer)
    → validate_nil_test op (binary o l' r' c' b') ≡ validate_nil_test op (binary o l r c b)
unfolding validate_nil_test
binary_nil_test op o l r l' r' c c' b b' = ground arith

module _ (rt : Runtime) (op : Operator) (l r l' r' : Expr) (c c' : List Regexp)
    (b b' : BranchOptimizer) (h : validate_operation rt op l r ≡ ok tt) (kl : Kept rt l l')
    (kr : Kept rt r r') where
  pub binary-Kept : Kept rt (binary op l r c b) (binary op l' r' c' b')
  unfolding implied_type validate
  binary-Kept =
      let v = operation_ok rt op l r h in
      record {
        same_type = rw (kl.same_type, kr.same_type) refl;
        valid =
            rw (kl.valid, kr.valid)
              (ok-operation rt op l' r' (record {
                no_existence = v.no_existence;
                matching = rw (kl.same_type, kr.same_type) v.matching;
                legal = rw (kl.same_type, kr.same_type) v.legal;
                pattern = kr.pattern op ∙ v.pattern;
                supported = v.supported;
              }));
        pattern = λ o. binary_pattern rt o op l r l' r' c c' b b';
        nil_test = λ o. binary_nil_test o op l r l' r' c c' b b';
      }

  -- The operands may be exchanged, where the operator is valid for two bools.
  pub exchanged-Kept :
      binary_types_valid op type_boolean type_boolean ≡ true
      → Kept rt (binary op l r c b) (binary op r' l' c' b')
  unfolding implied_type validate
  exchanged-Kept w =
      let v = operation_ok rt op l r h in
      record {
        same_type = rw (boolean_op op w) refl;
        valid =
            rw (kl.valid, kr.valid)
              (ok-operation rt op r' l' (record {
                no_existence = v.no_existence;
                matching =
                    rw (kl.same_type, kr.same_type)
                      (matching_operand_comm (implied_type r) (implied_type l) ∙ v.matching);
                legal =
                    rw (kl.same_type, kr.same_type)
                      (types_valid_comm op (implied_type r) (implied_type l) ∙ v.legal);
                pattern = no_pattern rt op l' w;
                supported = v.supported;
              }));
        pattern = λ o. binary_pattern rt o op l r r' l' c c' b b';
        nil_test = λ o. binary_nil_test o op l r r' l' c c' b b';
      }

-- The operands are exchanged only where the operator is valid for two bools.
pub learn-valid :
    (op : Operator) (l r : Static) (b : BranchOptimizer)
    → (learn op l r b).1 ≡ true
    → binary_types_valid op type_boolean type_boolean ≡ true
unfolding learn
learn-valid op (static_bool l) (static_bool r) b h = grind arith
learn-valid op _ _ b h = ground arith

pub Kept-refl : (rt : Runtime) (e : Expr) → validate rt e ≡ ok tt → Kept rt e e
Kept-refl rt e h = record { same_type = refl; valid = h; pattern = λ o. refl; nil_test = λ o. refl }

module _ (rt : Runtime) (op : Operator) (e e' : Expr) (h : validate_unary op e ≡ ok tt)
    (k : Kept rt e e') where
  unary_ok : validate_unary op e' ≡ ok tt
  unfolding validate_unary
  unary_ok = rw (k.nil_test op, k.same_type) h

  pub unary-Kept : Kept rt (unary op e) (unary op e')
  unfolding implied_type validate validate_regex validate_nil_test
  unary-Kept = record {
    same_type = rw k.same_type refl;
    valid = rw k.valid unary_ok;
    pattern = λ o. ground arith;
    nil_test = λ o. ground arith;
  }

  pub unary_ref-Kept : Kept rt (unary_ref op e) (unary_ref op e')
  unfolding implied_type validate validate_regex validate_nil_test
  unary_ref-Kept = record {
    same_type = rw k.same_type refl;
    valid = rw k.valid unary_ok;
    pattern = λ o. ground arith;
    nil_test = λ o. ground arith;
  }
