-- ===== src/RateLimit/Bucket.antt =====
-- TokenBucket of internal/ratelimit/ratelimit.go, whose tokens are floats. A call's clock readings are
-- arguments: `created` is the one that getOrCreateBucket makes for a new bucket.
use order_flow.Prelude.{
  Bool, true, false, ◌&&◌, Option, none, some, List, [], ◌∷◌, ℤ, pos, leb_ℤ, eqb_ℤ, succ_int,
  if◌then◌else◌, Time, Duration, zero_time, sub_time, add_time, before, String, Dict, lookup,
  insert,
}
use order_flow.Errors.{GoError}
use order_flow.Floats.{Floats}
use order_flow.RateLimit.{Config, Stats, Answer, Waiting, admitted, cancelled, asleep, minus_twice}

-- `bucket`, over the type of its floats
pub record Bucket (F : Type 0) : Type 0 where
  pub tokens : F
  pub last_refill : Time
  pub allowed : ℤ
  pub denied : ℤ
  pub burst : F

pub record TokenBucket (F : Type 0) : Type 0 where
  pub config : Config
  pub buckets : Dict (Bucket F)
  pub cleanup_tick : Duration

abbrev with_burst : Config → Config
with_burst config =
    if leb_ℤ config.burst (pos 0) then record config { burst = config.requests } else config

unfoldable pub new_token_bucket : {F : Type 0} → Config → TokenBucket F
new_token_bucket config = record {
  config = with_burst config;
  buckets = [];
  cleanup_tick = pos 300000000000;
}

abbrev pub unused_stats : Stats
unused_stats = record { allowed = pos 0; denied = pos 0; reset_time = zero_time }

abbrev pub bucket_stats : {F : Type 0} → Duration → Option (Bucket F) → Stats
bucket_stats w none = unused_stats
bucket_stats w (some b) = record {
  allowed = b.allowed;
  denied = b.denied;
  reset_time = add_time b.last_refill w;
}

unfoldable pub stats : {F : Type 0} → TokenBucket F → String → Stats
stats tb key = bucket_stats tb.config.window (lookup key tb.buckets)

-- Whether cleanup deletes a bucket.
unfoldable pub is_stale : {F : Type 0} → Time → Bucket F → Bool
is_stale cutoff b = before b.last_refill cutoff && eqb_ℤ b.allowed (pos 0) && eqb_ℤ b.denied (pos 0)

unfoldable pub drop_stale : {F : Type 0} → Time → Dict (Bucket F) → Dict (Bucket F)
drop_stale cutoff [] = []
drop_stale cutoff (entry ∷ m) =
    let rest = drop_stale cutoff m in if is_stale cutoff entry.1 then rest else entry ∷ rest

unfoldable pub cleanup : {F : Type 0} → TokenBucket F → Time → TokenBucket F
cleanup tb now = record tb {
  buckets = drop_stale (add_time now (minus_twice tb.config.window)) tb.buckets;
}

module _ (fl : Floats) where
  open fl use {Float, of_int, add, sub, mul, div, lt, le}

  unfoldable pub get_or_create_bucket : Config → Option (Bucket Float) → Time → Bucket Float
  get_or_create_bucket config (some b) created = b
  get_or_create_bucket config none created = record {
    tokens = of_int config.requests;
    last_refill = created;
    allowed = pos 0;
    denied = pos 0;
    burst = of_int config.burst;
  }

  -- `b.tokens += tokensToAdd`, capped by the burst
  unfoldable pub refilled : Config → Bucket Float → Duration → Float
  refilled config b elapsed =
      let tokens =
        add b.tokens (mul (div (of_int elapsed) (of_int config.window)) (of_int config.requests)) in
      if lt b.burst tokens then b.burst else tokens

  unfoldable pub refill : Config → Bucket Float → Time → Bucket Float
  unfolding refilled
  refill config b now =
      let elapsed = sub_time now b.last_refill in
      if leb_ℤ elapsed (pos 0)
      then b
      else record b { tokens = refilled config b elapsed; last_refill = now }

  abbrev pub take_token : Bool → Bucket Float → Bucket Float
  take_token true b = record b {
    tokens = sub b.tokens (of_int (pos 1));
    allowed = succ_int b.allowed;
  }
  take_token false b = record b { denied = succ_int b.denied }

  -- The bucket of a key that a call of Allow finds, after it was refilled.
  unfoldable pub current : TokenBucket Float → String → Time → Time → Bucket Float
  unfolding refill get_or_create_bucket
  current tb key created now =
      refill tb.config (get_or_create_bucket tb.config (lookup key tb.buckets) created) now

  unfoldable pub allow : TokenBucket Float → String → Time → Time → Answer (TokenBucket Float)
  allow tb key created now =
      let b = current tb key created now in
      let allowed = le (of_int (pos 1)) b.tokens in
      record {
        allowed = allowed;
        error = none;
        limiter = record tb { buckets = insert key (take_token allowed b) tb.buckets };
      }

  abbrev pub restarted :
      Config → Time → Option (Bucket Float) → Dict (Bucket Float) → String → Dict (Bucket Float)
  restarted config now none buckets key = buckets
  restarted config now (some b) buckets key =
      insert key
        (record b {
          tokens = of_int config.requests;
          last_refill = now;
          allowed = pos 0;
          denied = pos 0;
        })
        buckets

  unfoldable pub reset : TokenBucket Float → String → Time → TokenBucket Float
  reset tb key now = record tb {
    buckets = restarted tb.config now (lookup key tb.buckets) tb.buckets key;
  }

  -- Wait over the passes of its loop: the two clock readings of Allow, and the context's error if it
  -- ends before the 10 milliseconds between two passes.
  unfoldable pub wait : TokenBucket Float → String → List (Time × (Time × Option GoError)) → Waiting
  wait tb key [] = asleep
  wait tb key ((created, (now, ended)) ∷ rounds) =
      let answer = allow tb key created now in
      let rest = wait answer.limiter key rounds in
      if answer.allowed then admitted else (elim ended [ none ↦ rest | some e ↦ cancelled e ])
