-- ===== src/Rewrite/Joins.antt =====
-- Joining two statics: the array holds the elements of both, and OR and AND of the two comparisons
-- are the comparison with the array.
use traceql_syntax.Base.{
  Bool, true, false, ◌&&◌, ◌||◌, List, [], ◌∷◌, ◌++◌, any, all, any-append, all-append, All, ok,
  Option, none, some, ◌≡◌, refl,
}
use mathlib.Core.List.{map-append}
use traceql_syntax.Runtime.{Runtime}
use traceql_syntax.Operator.{Operator, op_or, op_and}
use traceql_syntax.Static.{
  Static, static_int, static_float, static_string, static_bool, static_int_array,
  static_float_array, static_string_array, static_boolean_array, elements,
}
use traceql_syntax.Static.Append.{append}
use traceql_syntax.Execute.{short_circuit}
use traceql_syntax.Execute.Arrays.{execute_values}
use traceql_syntax.Execute.Settled.{operation_value}
use traceql_syntax.Build.{normalize_trace_id_operand}
use traceql_syntax.Rewrite.{Rule, contains_op}
use traceql_syntax.Rewrite.Comparisons.{Compiles}
use traceql_syntax.Rewrite.Operands.{Operand, IsFilled, ArePatterns}
use traceql_syntax.Rewrite.Reads.{quantified, Reads}

-- The property of what an option holds, if anything.
abbrev pub Holds {ℓ} : {A : Type ℓ} → (A → Type 0) → Option A → Type 0
Holds P none = Unit
Holds P (some a) = P a

pub append-elements :
    (s t : Static) → Holds (λ u. elements u ≡ elements s ++ elements t) (append s t)
unfolding append elements
append-elements (static_string s) (static_string t) = refl
append-elements (static_string s) (static_string_array ts) = refl
append-elements (static_string_array ss) (static_string t) = map-append static_string ss (t ∷ [])
append-elements (static_string_array ss) (static_string_array ts) = map-append static_string ss ts
append-elements (static_int s) (static_int t) = refl
append-elements (static_int s) (static_int_array ts) = refl
append-elements (static_int_array ss) (static_int t) = map-append static_int ss (t ∷ [])
append-elements (static_int_array ss) (static_int_array ts) = map-append static_int ss ts
append-elements (static_float s) (static_float t) = refl
append-elements (static_float s) (static_float_array ts) = refl
append-elements (static_float_array ss) (static_float t) = map-append static_float ss (t ∷ [])
append-elements (static_float_array ss) (static_float_array ts) = map-append static_float ss ts
append-elements (static_bool s) (static_bool t) = refl
append-elements (static_bool s) (static_boolean_array ts) = refl
append-elements (static_boolean_array ss) (static_bool t) = map-append static_bool ss (t ∷ [])
append-elements (static_boolean_array ss) (static_boolean_array ts) = map-append static_bool ss ts
append-elements _ _ = tt

-- No array without elements.
abbrev pub IsPresent : Static → Type 0
IsPresent (static_int_array []) = ⊥
IsPresent (static_float_array []) = ⊥
IsPresent (static_string_array []) = ⊥
IsPresent (static_boolean_array []) = ⊥
IsPresent _ = Unit

pub append-IsFilled : (s t : Static) → IsPresent s → Holds IsFilled (append s t)
unfolding append
append-IsFilled (static_string s) (static_string t) h = tt
append-IsFilled (static_int s) (static_int t) h = tt
append-IsFilled (static_float s) (static_float t) h = tt
append-IsFilled (static_bool s) (static_bool t) h = tt
append-IsFilled (static_string_array []) t h = absurd h
append-IsFilled (static_string_array (s ∷ ss)) (static_string t) h = tt
append-IsFilled (static_string_array (s ∷ ss)) (static_string_array ts) h = tt
append-IsFilled (static_int_array []) t h = absurd h
append-IsFilled (static_int_array (s ∷ ss)) (static_int t) h = tt
append-IsFilled (static_int_array (s ∷ ss)) (static_int_array ts) h = tt
append-IsFilled (static_float_array []) t h = absurd h
append-IsFilled (static_float_array (s ∷ ss)) (static_float t) h = tt
append-IsFilled (static_float_array (s ∷ ss)) (static_float_array ts) h = tt
append-IsFilled (static_boolean_array []) t h = absurd h
append-IsFilled (static_boolean_array (s ∷ ss)) (static_bool t) h = tt
append-IsFilled (static_boolean_array (s ∷ ss)) (static_boolean_array ts) h = tt
append-IsFilled _ _ h = tt

-- Patterns that compile: one, or a list of at least one.
abbrev pub Patterns : Runtime → Static → Type 0
Patterns rt (static_string p) = Compiles rt p
Patterns rt (static_string_array (p ∷ ps)) = All (Compiles rt) (p ∷ ps)
Patterns rt _ = ⊥

All-append : {A : Type 0} (P : A → Type 0) (xs ys : List A) → All P xs → All P ys → All P (xs ++ ys)
All-append P [] ys hx hy = hy
All-append P (x ∷ xs) ys hx hy = (hx.0, All-append P xs ys hx.1 hy)

pub append-Patterns :
    (rt : Runtime) (s t : Static)
    → Patterns rt s
    → Patterns rt t
    → Holds (ArePatterns rt) (append s t)
unfolding append
append-Patterns rt (static_string s) (static_string t) h k = (h, (k, tt))
append-Patterns rt (static_string s) (static_string_array (t ∷ ts)) h k = (h, k)
append-Patterns rt (static_string s) (static_string_array []) h k = absurd k
append-Patterns rt (static_string_array (s ∷ ss)) (static_string t) h k =
    All-append (Compiles rt) (s ∷ ss) (t ∷ []) h (k, tt)
append-Patterns rt (static_string_array (s ∷ ss)) (static_string_array (t ∷ ts)) h k =
    All-append (Compiles rt) (s ∷ ss) (t ∷ ts) h k
append-Patterns rt (static_string_array (s ∷ ss)) (static_string_array []) h k = absurd k
append-Patterns rt (static_string_array []) t h k = absurd h
append-Patterns rt (static_string _) _ h k = absurd k
append-Patterns rt (static_string_array (_ ∷ _)) _ h k = absurd k
append-Patterns rt _ _ h k = absurd h

-- OR, or AND, of two comparisons is the comparison with the elements of both.
abbrev pub Combines : Runtime → Operator → Type 0
Combines rt outer =
    (p : Static → Bool) (xs ys : List Static)
    → operation_value rt outer (static_bool (quantified outer p xs))
        (ok (static_bool (quantified outer p ys)))
      ≡ ok (static_bool (quantified outer p (xs ++ ys)))

or_of_bools :
    (rt : Runtime) (a b : Bool)
    → operation_value rt op_or (static_bool a) (ok (static_bool b)) ≡ ok (static_bool (a || b))
unfolding short_circuit execute_values
or_of_bools rt true b = refl
or_of_bools rt false b = refl

and_of_bools :
    (rt : Runtime) (a b : Bool)
    → operation_value rt op_and (static_bool a) (ok (static_bool b)) ≡ ok (static_bool (a && b))
unfolding short_circuit execute_values
and_of_bools rt true b = refl
and_of_bools rt false b = refl

pub or_Combines : (rt : Runtime) → Combines rt op_or
or_Combines rt p xs ys = rw (any-append p xs ys) (or_of_bools rt (any p xs) (any p ys))

pub and_Combines : (rt : Runtime) → Combines rt op_and
and_Combines rt p xs ys = rw (all-append p xs ys) (and_of_bools rt (all p xs) (all p ys))

-- What a rule needs to keep the meaning of the comparisons that it joins.
pub record IsFit (rt : Runtime) (rule : Rule) : Type 0 where
  pub reads : Reads rt rule
  pub combines : Combines rt rule.outer
  pub member : contains_op (rule.scalar ∷ rule.array ∷ []) rule.array ≡ true
  pub fills :
      (o p : Operator) (s t : Static)
      → contains_op (rule.scalar ∷ rule.array ∷ []) o ≡ true
      → contains_op (rule.scalar ∷ rule.array ∷ []) p ≡ true
      → Operand rt o s
      → Operand rt p t
      → Holds (Operand rt rule.array) (append s t)
  pub keeps : (u : Static) → Operand rt rule.array u → normalize_trace_id_operand u ≡ u
