-- ===== src/Conditions/Hints.antt =====
-- Filters that accept spans which their conditions leave out.
use traceql_syntax.Base.{ℕ, true, not, [], ◌∷◌, ◌++◌, ◌==◌, some, ok, ◌≡◌, refl}
use traceql_syntax.Runtime.{Runtime}
use traceql_syntax.Operator.{op_none, op_or, op_not, op_equal}
use traceql_syntax.Static.{static_int, static_bool}
use traceql_syntax.Attribute.{Attribute}
use traceql_syntax.Optimizer.{BranchOptimizer}
use traceql_syntax.Expr.{Expr, binary, unary, static, attribute}
use traceql_syntax.Optimizer.{idle}
use traceql_syntax.Execute.{Span}
use traceql_syntax.Execute.Settled.{value}
use traceql_syntax.Conditions.{Request, Condition, extract_conditions}

-- `.a = n`
abbrev pub int_test : Attribute → ℕ → Expr
int_test a n = binary op_equal (attribute a) (static (static_int n)) [] idle

abbrev pub int_condition : Attribute → ℕ → Condition
int_condition a n = record { attr = a; op = op_equal; operands = static_int n ∷ [] }

-- An OR of an attribute a with `.b = n` adds the condition `.b = n` and leaves the hint that all
-- conditions hold as it was; but on a span where a is true and b is the int m, the OR is true, and
-- `.b = n` is true only if m is n.
pub attribute_or_hint :
    (rt : Runtime) (a b : Attribute) (n m : ℕ) (opt : BranchOptimizer) (span : Span) (req : Request)
    → span a ≡ some (static_bool true)
    → span b ≡ some (static_int m)
    → (extract_conditions (binary op_or (attribute a) (int_test b n) [] opt) req ≡ record {
      conditions =
          (req.conditions ++ (record { attr = a; op = op_none; operands = [] } ∷ []))
          ++ (int_condition b n ∷ []);
      all_conditions = req.all_conditions;
    })
      × (value rt (binary op_or (attribute a) (int_test b n) [] opt) span ≡ ok (static_bool true))
      × (value rt (int_test b n) span ≡ ok (static_bool (m == n)))
unfolding extract_conditions value
attribute_or_hint rt a b n m opt span req ha hb = (refl, rw ha refl, rw hb refl)

-- The negation of `.a = n` adds the condition `.a = n` itself, the hint unchanged; but on a span where
-- a is the int m, the negation is true exactly where `.a = n` is false.
pub negation_hint :
    (rt : Runtime) (a : Attribute) (n m : ℕ) (span : Span) (req : Request)
    → span a ≡ some (static_int m)
    → (extract_conditions (unary op_not (int_test a n)) req ≡ record {
      conditions = req.conditions ++ (int_condition a n ∷ []);
      all_conditions = req.all_conditions;
    })
      × (value rt (unary op_not (int_test a n)) span ≡ ok (static_bool (not (m == n))))
      × (value rt (int_test a n) span ≡ ok (static_bool (m == n)))
unfolding extract_conditions value
negation_hint rt a n m span req ha = (refl, rw ha refl, rw ha refl)
