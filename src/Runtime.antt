-- ===== src/Runtime.antt =====
-- What the code takes from outside the repository, as a parameter: Go's float64 arithmetic on bit
-- patterns, Go's regexp.Compile and the regular expression matcher of Prometheus.
use traceql_syntax.Base.{ℕ, Bool, true, false, ◌||◌, Text, ◌≡◌}

pub record Runtime : Type 0 where
  -- float64 operations; a float64 is its bit pattern, as math.Float64bits gives it
  pub f_add : ℕ → ℕ → ℕ
  pub f_sub : ℕ → ℕ → ℕ
  pub f_mul : ℕ → ℕ → ℕ
  pub f_div : ℕ → ℕ → ℕ
  pub f_mod : ℕ → ℕ → ℕ
  pub f_pow : ℕ → ℕ → ℕ
  pub f_eq : ℕ → ℕ → Bool
  pub f_lt : ℕ → ℕ → Bool
  pub f_le : ℕ → ℕ → Bool
  pub nan : ℕ
  pub minus_one : ℕ
  -- conversions: float64 of an int64 and of a uint64 pattern, and int64 of a float64
  pub of_int : ℕ → ℕ
  pub of_uint : ℕ → ℕ
  pub to_int : ℕ → ℕ
  -- whether regexp.Compile, and whether labels.NewFastRegexMatcher, takes the pattern
  pub compiles : Text → Bool
  pub fast_compiles : Text → Bool
  -- FastRegexMatcher.MatchString of a pattern on a text
  pub regex_match : Text → Text → Bool

-- The comparisons of float64s: an order up to equality on those that equal themselves, as all but
-- NaNs do.
pub record IsFloatOrder (rt : Runtime) : Type 0 where
  pub nan_ne : rt.f_eq rt.nan rt.nan ≡ false
  pub eq_sym : (a b : ℕ) → rt.f_eq a b ≡ rt.f_eq b a
  pub eq_trans : (a b c : ℕ) → rt.f_eq a b ≡ true → rt.f_eq b c ≡ true → rt.f_eq a c ≡ true
  pub lt_asym : (a b : ℕ) → rt.f_lt a b ≡ true → rt.f_lt b a ≡ false
  pub lt_trans : (a b c : ℕ) → rt.f_lt a b ≡ true → rt.f_lt b c ≡ true → rt.f_lt a c ≡ true
  pub lt_ne : (a b : ℕ) → rt.f_lt a b ≡ true → rt.f_eq a b ≡ false
  pub lt_eq : (a b c : ℕ) → rt.f_lt a b ≡ true → rt.f_eq b c ≡ true → rt.f_lt a c ≡ true
  pub eq_lt : (a b c : ℕ) → rt.f_eq a b ≡ true → rt.f_lt b c ≡ true → rt.f_lt a c ≡ true
  pub total :
      (a b : ℕ)
      → rt.f_eq a a ≡ true
      → rt.f_eq b b ≡ true
      → (rt.f_eq a b || (rt.f_lt a b || rt.f_lt b a)) ≡ true
