-- ===== src/RateLimit/Tests.antt =====
-- Runs of the rate limiters (internal/ratelimit), and their theorems at concrete inputs.
use Prim.Native.Nat.{min, max}
use order_flow.Prelude.{
  ◌+◌, ◌*◌, ◌/◌, if◌then◌else◌, ℕ, suc, ◌≡◌, refl, List, [], ◌∷◌, ℤ, pos, sub_ℕ, pos_part, neg_part,
  ltb_ℤ, leb_ℤ, Time, arith, lookup, insert, truncate, sub_time, String,
}
use order_flow.Strings.{append_str, before_sep, has_prefix, strip_prefix}
use order_flow.Http.{Response, write}
use order_flow.Floats.{Floats}
use order_flow.RateLimit.{Config}
use order_flow.RateLimit.Window
use order_flow.RateLimit.Bucket
use order_flow.RateLimit.WindowLimits.{Call, admitted_calls, calls_of, admitted_calls-limit}
use order_flow.Prelude.{none, length, ◌≤◌}
use order_flow.RateLimit.{admitted}
use order_flow.RateLimit.WindowWait.{wait-admitted}
use order_flow.RateLimit.BucketLimits.{WholeLaws, Op, admitted_at, run, admitted_at-limit}
use order_flow.RateLimit.BucketCleanup
use order_flow.RateLimit.Middleware.{Request, default_key_func, path_key_func}

abbrev times : ℤ → ℤ → ℤ
times (pos a) (pos b) = pos (a * b)
times x y = x

abbrev over : ℤ → ℤ → ℤ
over (pos a) (pos b) = pos (a / b)
over x y = x

-- Whole numbers in the place of floats.
abbrev whole : Floats
whole = record {
  Float = ℤ;
  of_int = λ n. n;
  to_int = λ x. x;
  add = λ x y. sub_ℕ (pos_part x + pos_part y) (neg_part x + neg_part y);
  sub = λ x y. sub_ℕ (pos_part x + neg_part y) (pos_part y + neg_part x);
  mul = times;
  div = over;
  pow = λ x y. x;
  lt = ltb_ℤ;
  le = leb_ℤ;
}

whole_laws : WholeLaws whole 9007199254740992
whole_laws = record {
  lt_int = λ m n le bd. ground arith;
  lt_le = λ m n x le bd h. ground arith;
  sub_one = λ n x bd h. ground arith;
  one_le = λ x h. ground arith;
}

abbrev config : Config
config = record { requests = pos 2; window = pos 100; burst = pos 0 }

abbrev call : String → Time → Call
call key t = record { key = key; created = t; now = t }

abbrev some_calls : List Call
some_calls = call "a" 110 ∷ call "b" 120 ∷ call "a" 130 ∷ call "a" 199 ∷ []

admitted_calls-limit_example :
    admitted_calls "a" (Window.new_fixed_window config) some_calls ≡ min 2 (calls_of "a" some_calls)
unfolding lookup truncate
admitted_calls-limit_example =
    admitted_calls-limit "a" (Window.new_fixed_window config) some_calls 100 99 2 refl refl
      (omega arith) (omega arith) refl
      ((refl, refl), ((refl, refl), ((refl, refl), ((refl, refl), tt))))

admitted_calls_runs :
    admitted_calls "a"
      (Window.new_fixed_window (record config { requests = pos 1 }))
      (call "a" 110 ∷ call "a" 120 ∷ call "a" 200 ∷ [])
    ≡ 2
unfolding admitted_calls Window.allow Window.current Window.get_or_create_window Window.roll
    Window.admits lookup insert truncate sub_time
admitted_calls_runs = refl

-- A limiter whose key has used up its window from 100 to 200.
abbrev used_up : Window.FixedWindow
used_up = record {
  config = record config { requests = pos 1 };
  windows = ("a", record { count = pos 1; start_time = 100; allowed = pos 1; denied = pos 0 }) ∷ [];
}

abbrev round : Time → Window.Round
round t = record { created = t; now = t; asked = t + 5; ended = none }

wait-admitted_example :
    ((Window.wait used_up "a" (round 130 ∷ round 200 ∷ [])).0 ≡ admitted)
    × (length (Window.wait used_up "a" (round 130 ∷ round 200 ∷ [])).1 ≤ 1)
unfolding lookup truncate sub_time Window.wait_time
wait-admitted_example =
    wait-admitted used_up "a" (round 130) (round 200) [] 99 0 refl refl (omega arith) (omega arith)
      (omega arith) refl (omega arith) (omega arith)

waits_once : Window.wait used_up "a" (round 130 ∷ round 200 ∷ []) ≡ (admitted, pos 65 ∷ [])
unfolding Window.wait Window.wait_time Window.allow Window.current Window.get_or_create_window
    Window.roll Window.admits lookup insert truncate sub_time
waits_once = refl

abbrev new_bucket : Bucket.TokenBucket ℤ
new_bucket = Bucket.new_token_bucket config

-- Calls, a Reset and a cleanup.
abbrev history : List Op
history =
    Op.call (call "a" 50)
    ∷ Op.call (call "a" 60)
    ∷ Op.restart "a" 70
    ∷ Op.call (call "b" 80)
    ∷ Op.sweep 100000
    ∷ []

abbrev batch : List (String × Time)
batch = ("a", 290) ∷ ("b", 290) ∷ ("a", 290) ∷ ("a", 290) ∷ ("c", 290) ∷ []

admitted_at-limit_example :
    admitted_at whole 300 "a" (run whole (Bucket.new_token_bucket config) history) batch ≤ max 2 0
admitted_at-limit_example =
    admitted_at-limit whole 9007199254740992 config history 300 "a" batch 2 0 whole_laws refl refl
      (omega arith)

-- The burst is a cap: with one below the requests, a call is lost as soon as time has passed.
low_burst :
    admitted_at whole 300 "a" (Bucket.new_token_bucket (record config { burst = pos 1 })) batch ≡ 1
unfolding admitted_at Bucket.allow Bucket.current Bucket.refill Bucket.refilled
    Bucket.get_or_create_bucket Bucket.new_token_bucket lookup insert sub_time
low_burst = refl

cleanup-after_calls_example :
    Bucket.cleanup (BucketCleanup.after_calls whole new_bucket some_calls) 100000
    ≡ BucketCleanup.after_calls whole new_bucket some_calls
cleanup-after_calls_example =
    BucketCleanup.cleanup-after_calls whole config some_calls 100000 (omega arith)

abbrev request : String → Request
request user = record {
  forwarded_for = "";
  real_ip = "";
  user_id = user;
  remote_addr = "10.0.0.1:5000";
  path = "/api/orders/7";
}

keys : path_key_func (request "7") ≡ "10.0.0.1:/api/orders/*"
unfolding path_key_func default_key_func append_str before_sep has_prefix strip_prefix
keys = refl

-- Every client with an IPv6 address has one key.
key_of_ipv6 :
    default_key_func (record (request "") { remote_addr = "[2001:db8::1]:5000" }) ≡ "[2001"
unfolding default_key_func before_sep
key_of_ipv6 = refl

abbrev itoa : ℤ → String
itoa n = if leb_ℤ (pos 0) n then "not negative" else "negative"

abbrev next : ℕ → Response × ℕ
next n = (write "body" ∷ [], suc n)

abbrev bucket_after : Bucket.TokenBucket ℤ
bucket_after = (Bucket.allow whole new_bucket "10.0.0.1" 50 50).limiter

abbrev no_requests : Bucket.TokenBucket ℤ
no_requests = Bucket.new_token_bucket (record { requests = pos 0; window = pos 100; burst = pos 0 })
