-- ===== src/Prelude/Time.antt =====
-- `time.Time` as the number of nanoseconds since the earliest instant that it can hold, and
-- `time.Duration` as a 64-bit pattern.
use Prim.Native.Nat.{ℕ, ◌+◌, ◌-◌, ◌*◌, ◌^◌, ◌<◌, ◌≤◌, min}
use mathlib.Core.Path.{◌≡◌}
use native.Mathlib.Omega.{arith}
use kubto.Prelude.Tests.{leb, if◌then◌else◌}
use kubto.Prelude.Int64.{int64_mod, int64_half, is_neg}

-- The zero value of `time.Time`: 1 January of the year 1.
abbrev pub zero_time : ℕ
zero_time = 9_223_371_966_579_724_800 * 1_000_000_000

-- `t.Sub(u)`, which saturates.
unfoldable pub sub_time : ℕ → ℕ → ℕ
sub_time t u = if leb u t then min (t - u) (int64_half - 1) else int64_mod - min (u - t) int64_half

-- `t.Add(d)`.
unfoldable pub add_time : ℕ → ℕ → ℕ
add_time t d = if is_neg d then t + d - int64_mod else t + d

-- Of two instants in order the difference is exact below 2 ^ 63 nanoseconds.
pub sub_time_of_le : (t u : ℕ) → u ≤ t → t - u < 2 ^ 63 → sub_time t u ≡ t - u
unfolding sub_time
sub_time_of_le t u h k = ground arith
