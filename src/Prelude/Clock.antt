-- ===== src/Prelude/Clock.antt =====
-- Go's `time.Time` as nanoseconds since its zero value, and `time.Duration` as an integer of
-- nanoseconds that saturates where `Sub` saturates.
use Prim.Native.Nat.{ℕ, zero, suc, ◌+◌, ◌-◌, ◌%◌, ◌≤◌}
use mathlib.Core.Path.{◌≡◌}
use mathlib.Core.Bool.{Bool}
use native.Mathlib.Omega.{arith}
use order_flow.Prelude.Tests.{ltb, if◌then◌else◌}
use order_flow.Prelude.Int.{ℤ, pos, negsuc, sub_ℕ, max_int, ltb_ℤ}

abbrev pub Time : Type 0
Time = ℕ

abbrev pub Duration : Type 0
Duration = ℤ

-- The zero value `time.Time{}`.
abbrev pub zero_time : Time
zero_time = 0

abbrev pub saturate : ℤ → Duration
saturate (pos n) = if ltb max_int n then pos max_int else pos n
saturate (negsuc n) = if ltb max_int n then negsuc max_int else negsuc n

-- `t.Sub(u)`
unfoldable pub sub_time : Time → Time → Duration
sub_time t u = saturate (sub_ℕ t u)

-- `t.Add(d)`; no time before the zero value is represented.
abbrev pub add_time : Time → Duration → Time
add_time t (pos n) = t + n
add_time t (negsuc n) = t - suc n

-- `t.After(u)` and `t.Before(u)`
abbrev pub after : Time → Time → Bool
after t u = ltb u t

abbrev pub before : Time → Time → Bool
before t u = ltb t u

-- `t.Truncate(d)`: down to a multiple of `d` since the zero time; `t` itself where `d <= 0`.
unfoldable pub truncate : Time → Duration → Time
truncate t (pos zero) = t
truncate t (pos (suc n)) = t - t % suc n
truncate t (negsuc n) = t

abbrev pub minute : ℕ
minute = 60000000000

abbrev pub second : ℕ
second = 1000000000

-- For a duration below the limit a saturated difference passes it exactly when the true one does.
pub sub_time-lt : (t u d : ℕ) → d ≤ max_int - 1 → ltb_ℤ (pos d) (sub_time t u) ≡ ltb (u + d) t
unfolding sub_time
sub_time-lt t u d h = ground arith
