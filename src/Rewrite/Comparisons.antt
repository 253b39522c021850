-- ===== src/Rewrite/Comparisons.antt =====
-- What the comparisons that the rewriter joins mean: the attribute's value passes the scalar
-- operator with some element of the static, or with all of them.
use traceql_syntax.Base.{
  Bool, true, false, List, [], ◌∷◌, map, any, all, All, Text, ◌≡◌, refl, arith,
}
use traceql_syntax.Runtime.{Runtime}
use traceql_syntax.StaticType.{is_array}
use traceql_syntax.Operator.{op_regex, op_not_regex}
use traceql_syntax.Static.{Static, static_string, type_of}
use traceql_syntax.Execute.Values.{bin_op_execute_scalar}
use traceql_syntax.Execute.Elements.{test, Tests}

-- A value that is no array.
abbrev pub IsScalar : Static → Type 0
IsScalar x = is_array (type_of x) ≡ false

-- The matcher library takes the pattern.
abbrev pub Compiles : Runtime → Text → Type 0
Compiles rt p = rt.fast_compiles p ≡ true

pub any-false :
    {A : Type 0} (p : Static → Bool) (f : A → Static) (xs : List A)
    → ((a : A) → p (f a) ≡ false)
    → any p (map f xs) ≡ false
unfolding any
any-false p f [] h = refl
any-false p f (x ∷ xs) h = rw (h x) (any-false p f xs h)

pub all-false :
    {A : Type 0} (p : Static → Bool) (f : A → Static) (x : A) (xs : List A)
    → ((a : A) → p (f a) ≡ false)
    → all p (map f (x ∷ xs)) ≡ false
unfolding all
all-false p f x xs h = rw (h x) refl

pub All-map :
    {A : Type 0} (P : Static → Type 0) (f : A → Static) (xs : List A)
    → ((a : A) → P (f a))
    → All P (map f xs)
All-map P f [] h = tt
All-map P f (x ∷ xs) h = (h x, All-map P f xs h)

pub All-of :
    {A : Type 0} (P : Static → Type 0) (Q : A → Type 0) (f : A → Static) (xs : List A)
    → ((a : A) → Q a → P (f a))
    → All Q xs
    → All P (map f xs)
All-of P Q f [] h q = tt
All-of P Q f (x ∷ xs) h q = (h x q.0, All-of P Q f xs h q.1)

module _ (rt : Runtime) (s p : Text) (c : Compiles rt p) where
  pub regex-Tests : Tests rt op_regex (static_string s) (static_string p)
  unfolding test bin_op_execute_scalar
  regex-Tests = rw c (refl, omega arith)

  pub not_regex-Tests : Tests rt op_not_regex (static_string s) (static_string p)
  unfolding test bin_op_execute_scalar
  not_regex-Tests = rw c (refl, omega arith)
