-- ===== src/RateLimit.antt =====
-- The rate limiters of internal/ratelimit/ratelimit.go: what the token bucket and the fixed window share.
pub mod Window
pub mod WindowLimits
pub mod WindowStats
pub mod WindowWait
pub mod Bucket
pub mod BucketLimits
pub mod BucketCleanup
pub mod Middleware
pub mod Responses
mod Tests
use order_flow.Prelude.{
  ℕ, zero, suc, ◌+◌, ◌-◌, ◌*◌, ◌%◌, ◌^◌, Bool, ℤ, pos, negsuc, pos_part, neg_part, sub_ℕ, leb,
  max_int, if◌then◌else◌, Time, Duration, Option,
}
use order_flow.Errors.{GoError}

pub record Stats : Type 0 where
  pub allowed : ℤ
  pub denied : ℤ
  pub reset_time : Time

pub record Config : Type 0 where
  pub requests : ℤ
  pub window : Duration
  pub burst : ℤ

-- What Allow returns, and the limiter after it.
pub record Answer (L : Type 0) : Type 0 where
  pub allowed : Bool
  pub error : Option GoError
  pub limiter : L

-- How a Wait stands: let through, ended by the context, or asleep for a duration before it asks again.
pub data Waiting : Type 0 where
  admitted : Waiting
  cancelled : GoError → Waiting
  asleep : Waiting

-- An integer reduced to the 64 bits of an `int64`.
unfoldable pub wrap_int : ℤ → ℤ
wrap_int (pos n) = let m = n % 2 ^ 64 in if leb m max_int then pos m else negsuc (2 ^ 64 - 1 - m)
wrap_int (negsuc n) = let m = n % 2 ^ 64 in if leb m max_int then negsuc m else pos (2 ^ 64 - 1 - m)

-- `a - b`
unfoldable pub sub_int : ℤ → ℤ → ℤ
unfolding wrap_int
sub_int a b = wrap_int (sub_ℕ (pos_part a + neg_part b) (pos_part b + neg_part a))

-- `-d * 2`
unfoldable pub minus_twice : ℤ → ℤ
unfolding sub_int wrap_int
minus_twice d = sub_int (sub_int (pos 0) d) d
