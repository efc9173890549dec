-- ===== src/Prelude/Int64.antt =====
-- `int64`, `int` and `time.Duration` as 64-bit patterns: a number below 2 ^ 64 in two's complement.
-- Each operation wraps, as Go's does.
use Prim.Native.Nat.{ℕ, ◌+◌, ◌-◌, ◌*◌, ◌/◌, ◌%◌, ◌^◌, ◌≤◌, ◌<◌}
use mathlib.Core.Path.{◌≡◌}
use mathlib.Core.Bool.{Bool, false, not}
use native.Mathlib.Omega.{arith}
use native.Mathlib.Nat.{mod-eq_of_lt}
use kubto.Prelude.Tests.{ltb, leb, if◌then◌else◌}

abbrev pub int64_mod : ℕ
int64_mod = 2 ^ 64

-- The patterns from here on stand for negative numbers.
abbrev pub int64_half : ℕ
int64_half = 2 ^ 63

unfoldable pub add64 : ℕ → ℕ → ℕ
add64 a b = (a + b) % int64_mod

unfoldable pub sub64 : ℕ → ℕ → ℕ
sub64 a b = (a + int64_mod - b) % int64_mod

unfoldable pub mul64 : ℕ → ℕ → ℕ
mul64 a b = (a * b) % int64_mod

unfoldable pub neg64 : ℕ → ℕ
neg64 a = (int64_mod - a) % int64_mod

abbrev pub is_neg : ℕ → Bool
is_neg a = leb int64_half a

unfoldable pub abs64 : ℕ → ℕ
abs64 a = if is_neg a then neg64 a else a

abbrev signs_differ : ℕ → ℕ → Bool
signs_differ a b = if is_neg a then not (is_neg b) else is_neg b

-- Go's `/` truncates towards zero.
unfoldable pub div64 : ℕ → ℕ → ℕ
div64 a b = let q = (abs64 a / abs64 b) % int64_mod in if signs_differ a b then neg64 q else q

-- `a < b` and `a <= b` as signed numbers.
unfoldable pub lt64 : ℕ → ℕ → Bool
lt64 a b = ltb ((a + int64_half) % int64_mod) ((b + int64_half) % int64_mod)

unfoldable pub le64 : ℕ → ℕ → Bool
le64 a b = leb ((a + int64_half) % int64_mod) ((b + int64_half) % int64_mod)

-- A pattern that stands for a number that is not negative.
abbrev pub IsNat64 : ℕ → Type 0
IsNat64 a = a < 2 ^ 63

pub le64-le : (a b : ℕ) → IsNat64 a → IsNat64 b → le64 a b ≡ leb a b
unfolding le64
le64-le a b ha hb = ground arith

pub lt64-lt : (a b : ℕ) → IsNat64 a → IsNat64 b → lt64 a b ≡ ltb a b
unfolding lt64
lt64-lt a b ha hb = ground arith

pub sub64_of_le : (a b : ℕ) → b ≤ a → IsNat64 a → sub64 a b ≡ a - b
unfolding sub64
sub64_of_le a b h ha = omega arith

pub add64_of_lt : (a b : ℕ) → a + b < 2 ^ 63 → add64 a b ≡ a + b
unfolding add64
add64_of_lt a b h = omega arith

pub abs64_of_nat : (a : ℕ) → IsNat64 a → abs64 a ≡ a
unfolding abs64
abs64_of_nat a h = ground arith

not-is_neg : (a : ℕ) → IsNat64 a → is_neg a ≡ false
not-is_neg a h = ground arith

pub div64_of_nat : (a b : ℕ) → IsNat64 a → IsNat64 b → div64 a b ≡ a / b
unfolding div64
div64_of_nat a b ha hb =
    rw (abs64_of_nat a ha, abs64_of_nat b hb, not-is_neg a ha, not-is_neg b hb)
      (mod-eq_of_lt (omega arith))
