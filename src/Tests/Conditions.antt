-- ===== src/Tests/Conditions.antt =====
-- The conditions that a filter asks of the storage: the theorems at concrete inputs.
use traceql_syntax.Base.{true, false, [], ◌∷◌, some, codes, ◌≡◌, refl, ok, if◌then◌else◌}
use traceql_syntax.Operator.{op_or, op_none, op_not}
use traceql_syntax.Static.{static_int, static_bool}
use traceql_syntax.Attribute.{Attribute, new_attribute, attribute_eq}
use traceql_syntax.Optimizer.{idle}
use traceql_syntax.Expr.{binary, unary, attribute}
use traceql_syntax.Execute.{Span}
use traceql_syntax.Execute.Settled.{value}
use traceql_syntax.Conditions.{Request, extract_conditions}
use traceql_syntax.Conditions.Fetched.{Agree, extract_fetches_all}
use traceql_syntax.Conditions.Hints.{int_test, int_condition, attribute_or_hint, negation_hint}
use traceql_syntax.Tests.{toy, attr_a, attr_b, mixed, span_1}

abbrev no_request : Request
no_request = record { conditions = []; all_conditions = true }

abbrev attr_c : Attribute
attr_c = new_attribute (codes "c")

-- As span_1, with another value for c.
abbrev span_2 : Span
span_2 a = if attribute_eq a attr_c then some (static_int 7) else span_1 a

extract_fetches_all_example :
    (value toy mixed span_1 ≡ value toy mixed span_2) × Agree span_1 span_2 no_request.conditions
unfolding extract_conditions attribute_eq new_attribute
extract_fetches_all_example =
    extract_fetches_all toy mixed no_request span_1 span_2 (refl, (refl, (refl, tt)))

attribute_or_hint_example :
    (extract_conditions (binary op_or (attribute attr_a) (int_test attr_b 1) [] idle) no_request
      ≡ record {
        conditions =
            (record { attr = attr_a; op = op_none; operands = [] } ∷ int_condition attr_b 1 ∷ []);
        all_conditions = true;
      })
    × (value toy
          (binary op_or (attribute attr_a) (int_test attr_b 1) [] idle)
          (λ a. if attribute_eq a attr_a then some (static_bool true) else some (static_int 2))
        ≡ ok (static_bool true))
    × (value toy
          (int_test attr_b 1)
          (λ a. if attribute_eq a attr_a then some (static_bool true) else some (static_int 2))
        ≡ ok (static_bool false))
unfolding attribute_eq new_attribute
attribute_or_hint_example =
    attribute_or_hint toy attr_a attr_b 1 2 idle
      (λ a. if attribute_eq a attr_a then some (static_bool true) else some (static_int 2))
      no_request refl refl

negation_hint_example :
    (extract_conditions (unary op_not (int_test attr_a 1)) no_request
      ≡ record { conditions = int_condition attr_a 1 ∷ []; all_conditions = true })
    × (value toy (unary op_not (int_test attr_a 1)) (λ a. some (static_int 2))
        ≡ ok (static_bool true))
    × (value toy (int_test attr_a 1) (λ a. some (static_int 2)) ≡ ok (static_bool false))
negation_hint_example = negation_hint toy attr_a 1 2 (λ a. some (static_int 2)) no_request refl
