-- ===== src/Tests/Types.antt =====
-- The types of field expressions on a small runtime: the theorem at inputs that meet its hypotheses.
use traceql_syntax.Base.{◌≡◌, [], Option, none, some, ok, refl, true, arith}
use traceql_syntax.Operator.{op_or, op_greater, op_not_exists}
use traceql_syntax.Static.{Static, static_int, static_duration}
use traceql_syntax.Attribute.{
  Intrinsic, intrinsic_duration, intrinsic_type, new_intrinsic, new_attribute,
}
use traceql_syntax.Expr.{Expr, binary, unary, static, attribute, implied_type}
use traceql_syntax.Optimizer.{idle, new_branch_predictor}
use traceql_syntax.Build.{no_clock}
use traceql_syntax.Execute.{Span, execute, attribute_value}
use traceql_syntax.Validate.{validate}
use traceql_syntax.Validate.Fits.{fits, Fits}
use traceql_syntax.Validate.Typed.{execute-Fits}
use traceql_syntax.Tests.{toy, dot_a}

-- A span that lasts 7, without attributes.
abbrev answer : Intrinsic → Option Static
answer intrinsic_duration = some (static_duration 7)
answer _ = none

abbrev short_span : Span
short_span a = answer a.intrinsic

answer-fits : (i : Intrinsic) → fits (intrinsic_type i) (attribute_value (answer i)) ≡ true
unfolding fits intrinsic_type attribute_value
answer-fits i = ground arith

-- duration > 5 || .a = nil, whose optimizer records.
abbrev long_or_without_a : Expr
long_or_without_a =
    binary op_or
      (binary op_greater (attribute (new_intrinsic (λ n. []) intrinsic_duration))
        (static (static_int 5)) [] idle)
      (unary op_not_exists dot_a) [] (new_branch_predictor 2 1000)

execute-Fits_example :
    Fits (implied_type long_or_without_a) (execute toy long_or_without_a short_span no_clock).result
    × (validate toy (execute toy long_or_without_a short_span no_clock).expr ≡ ok tt)
    × (implied_type (execute toy long_or_without_a short_span no_clock).expr
        ≡ implied_type long_or_without_a)
unfolding validate new_intrinsic new_attribute
execute-Fits_example =
    execute-Fits toy long_or_without_a short_span no_clock (λ a. answer-fits a.intrinsic) refl
