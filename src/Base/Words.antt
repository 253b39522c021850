-- ===== src/Base/Words.antt =====
-- Go's int, int64 and uint64 as their bit patterns, numbers below 2 ^ 64.
use Prim.Native.Nat.{ℕ, ◌+◌, ◌-◌, ◌*◌, ◌/◌, ◌%◌, ◌^◌}
use mathlib.Core.Bool.{Bool, xor}
use traceql_syntax.Base.Tests.{ltb, leb, if◌then◌else◌}

abbrev pub word_mod : ℕ
word_mod = 2 ^ 64

abbrev pub sign_bit : ℕ
sign_bit = 2 ^ 63

unfoldable pub add64 : ℕ → ℕ → ℕ
add64 a b = (a + b) % word_mod

unfoldable pub sub64 : ℕ → ℕ → ℕ
sub64 a b = (a + word_mod - b) % word_mod

unfoldable pub mul64 : ℕ → ℕ → ℕ
mul64 a b = (a * b) % word_mod

unfoldable pub neg64 : ℕ → ℕ
neg64 a = (word_mod - a) % word_mod

-- Whether the pattern stands for a negative int.
abbrev pub is_negative : ℕ → Bool
is_negative a = leb sign_bit a

-- The absolute value of the int that the pattern stands for.
abbrev pub magnitude : ℕ → ℕ
magnitude a = if is_negative a then word_mod - a else a

-- The order of the ints: adding the sign bit turns it into the order of the patterns.
abbrev pub biased : ℕ → ℕ
biased a = (a + sign_bit) % word_mod

abbrev pub slt64 : ℕ → ℕ → Bool
slt64 a b = ltb (biased a) (biased b)

abbrev pub sle64 : ℕ → ℕ → Bool
sle64 a b = leb (biased a) (biased b)

-- Go's int division and remainder, which truncate towards zero. The callers test for zero first.
unfoldable pub div64 : ℕ → ℕ → ℕ
unfolding neg64
div64 a b =
    let q = magnitude a / magnitude b in
    if xor (is_negative a) (is_negative b) then neg64 q else q % word_mod

unfoldable pub rem64 : ℕ → ℕ → ℕ
unfolding neg64
rem64 a b = let r = magnitude a % magnitude b in if is_negative a then neg64 r else r
