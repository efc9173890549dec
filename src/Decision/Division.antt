-- ===== src/Decision/Division.antt =====
-- `ceilDiv` rounds up.
use kubto.Prelude.{
  ℕ, ◌+◌, ◌-◌, ◌*◌, ◌/◌, ◌%◌, neg64, ◌^◌, ◌≤◌, ◌<◌, ◌≡◌, arith, div64, add64_of_lt, sub64_of_le,
  div64_of_nat,
}
use native.Mathlib.Nat.{div-add-mod', mod-lt}
use kubto.Decision.{ceil_div}

ceil_div_of_nat : (a b : ℕ) → 0 < b → a + b < 2 ^ 63 → ceil_div a b ≡ (a + b - 1) / b
unfolding ceil_div
ceil_div_of_nat a b h k = rw (add64_of_lt a b k) (
    rw (sub64_of_le (a + b) 1 (omega arith) k)
      (rw (div64_of_nat (a + b - 1) b (omega arith) (omega arith)) (ground arith)))

-- Of a number that is not negative and a positive divisor, with a sum in range, `ceilDiv` is the
-- least number of multiples of the divisor that reach the number.
pub ceil_div_lem :
    (a b : ℕ) → 0 < b → a + b < 2 ^ 63 → (a ≤ ceil_div a b * b) × (ceil_div a b * b < a + b)
unfolding ceil_div
ceil_div_lem a b h k =
    let q = (a + b - 1) / b in
    let r = (a + b - 1) % b in
    let split : q * b + r ≡ a + b - 1 = div-add-mod' (a + b - 1) b in
    let small : r < b = mod-lt (a + b - 1) h in rw (ceil_div_of_nat a b h k) (omega arith)

-- Whatever the arguments, the result is a 64-bit number.
pub ceil_div-lt : (a b : ℕ) → ceil_div a b < 2 ^ 64
unfolding ceil_div div64 neg64
ceil_div-lt a b = ground arith
