-- ===== src/RateLimit/BucketCleanup.antt =====
-- What the cleanup of TokenBucket (internal/ratelimit/ratelimit.go) deletes.
use order_flow.Prelude.{
  ℕ, suc, ◌+◌, ◌≤◌, ◌<◌, ◌≡◌, refl, subst, add_time, ap, ◌∙◌, Bool, true, false, inl, inr, List, [],
  ◌∷◌, length, pos, Time, max_int, String, Dict, lookup, arith, Each, Each-lookup, Each-insert,
  Option-cases,
}
use order_flow.Floats.{Floats}
use order_flow.RateLimit.{Config, minus_twice}
use order_flow.RateLimit.Bucket.{
  Bucket, TokenBucket, is_stale, drop_stale, cleanup, get_or_create_bucket, refill, take_token,
  current, allow, new_token_bucket,
}
use order_flow.RateLimit.WindowLimits.{Call}

-- A bucket that so many calls at most were counted in.
abbrev Counts : {F : Type 0} → ℕ → Bucket F → Type 0
Counts n b = (a : ℕ) × (d : ℕ) × (b.allowed ≡ pos a) × (b.denied ≡ pos d) × (a + d ≤ n)

-- One that was used, too.
abbrev Used : {F : Type 0} → ℕ → Bucket F → Type 0
Used n b = (a : ℕ) × (d : ℕ) × (b.allowed ≡ pos a) × (b.denied ≡ pos d) × (0 < a + d) × (a + d ≤ n)

Each-Used-suc :
    {F : Type 0} (n : ℕ) (m : Dict (Bucket F))
    → Each (λ k b. Used n b) m
    → Each (λ k b. Used (suc n) b) m
Each-Used-suc n [] us = tt
Each-Used-suc n ((k, b) ∷ m) ((a, d, ea, ed, lt, le), us) =
    ((a, d, ea, ed, lt, (omega arith)), Each-Used-suc n m us)

drop_stale-Used :
    {F : Type 0} (cutoff : Time) (n : ℕ) (m : Dict (Bucket F))
    → Each (λ k b. Used n b) m
    → drop_stale cutoff m ≡ m
unfolding drop_stale is_stale
drop_stale-Used cutoff n [] us = refl
drop_stale-Used cutoff n ((k, b) ∷ m) ((a, d, ea, ed, lt, le), us) =
    ground (arith, drop_stale-Used cutoff n m us)

module _ (fl : Floats) where
  open fl use {Float}

  -- The limiter after calls of Allow.
  unfoldable pub after_calls : TokenBucket Float → List Call → TokenBucket Float
  after_calls tb [] = tb
  after_calls tb (c ∷ calls) = after_calls (allow fl tb c.key c.created c.now).limiter calls

  refill-counters :
      (config : Config) (b : Bucket Float) (now : Time)
      → ((refill fl config b now).allowed ≡ b.allowed)
        × ((refill fl config b now).denied ≡ b.denied)
  unfolding refill
  refill-counters config b now = ground arith

  refill-Counts :
      (config : Config) (b : Bucket Float) (now : Time) (n : ℕ)
      → Counts n b
      → Counts n (refill fl config b now)
  refill-Counts config b now n (a, d, ea, ed, le) =
      let kept = refill-counters config b now in (a, d, kept.0 ∙ ea, kept.1 ∙ ed, le)

  create-Counts :
      (tb : TokenBucket Float) (key : String) (created : Time) (n : ℕ)
      → Each (λ k b. Used n b) tb.buckets
      → Counts n (get_or_create_bucket fl tb.config (lookup key tb.buckets) created)
  unfolding get_or_create_bucket
  create-Counts tb key created n us = elim (Option-cases (lookup key tb.buckets)) [
    | inl none_at ↦ rw none_at (0, 0, refl, refl, omega arith)
    | inr (b, at) ↦
        let (a, d, ea, ed, lt, le) = Each-lookup (λ k b. Used n b) key tb.buckets us at in
        rw at (a, d, ea, ed, le)
  ]

  current-Counts :
      (tb : TokenBucket Float) (key : String) (created now : Time) (n : ℕ)
      → Each (λ k b. Used n b) tb.buckets
      → Counts n (current fl tb key created now)
  unfolding current
  current-Counts tb key created now n us =
      refill-Counts tb.config (get_or_create_bucket fl tb.config (lookup key tb.buckets) created)
        now n (create-Counts tb key created n us)

  take-Used :
      (allowed : Bool) (b : Bucket Float) (n : ℕ)
      → suc n ≤ max_int
      → Counts n b
      → Used (suc n) (take_token fl allowed b)
  take-Used true b n le (a, d, ea, ed, bd) = (suc a, d, ground arith, ed, omega arith, omega arith)
  take-Used false b n le (a, d, ea, ed, bd) = (a, suc d, ea, ground arith, omega arith, omega arith)

  allow-Used :
      (tb : TokenBucket Float) (c : Call) (n : ℕ)
      → suc n ≤ max_int
      → Each (λ k b. Used n b) tb.buckets
      → Each (λ k b. Used (suc n) b) (allow fl tb c.key c.created c.now).limiter.buckets
  unfolding allow
  allow-Used tb c n le us =
      let b = current fl tb c.key c.created c.now in
      let allowed = fl.le (fl.of_int (pos 1)) b.tokens in
      Each-insert (λ k b. Used (suc n) b) c.key (take_token fl allowed b) tb.buckets
        (take-Used allowed b n le (current-Counts tb c.key c.created c.now n us))
        (Each-Used-suc n tb.buckets us)

  after_calls-Used :
      (tb : TokenBucket Float) (calls : List Call) (n : ℕ)
      → n + length calls ≤ max_int
      → Each (λ k b. Used n b) tb.buckets
      → Each (λ k b. Used (n + length calls) b) (after_calls tb calls).buckets
  unfolding after_calls
  after_calls-Used tb [] n le us = subst (λ m. Each (λ k b. Used m b) tb.buckets) (omega arith) us
  after_calls-Used tb (c ∷ calls) n le us =
      let after = (allow fl tb c.key c.created c.now).limiter in
      subst (λ m. Each (λ k b. Used m b) (after_calls after calls).buckets) (omega arith)
        (after_calls-Used after calls (suc n) (omega arith) (allow-Used tb c n (omega arith) us))

  new-Used :
      (config : Config) → Each (λ k b. Used 0 b) (new_token_bucket {F = Float} config).buckets
  unfolding new_token_bucket
  new-Used config = tt

  -- After fewer than 2^63 calls of Allow on a new limiter, and no call of Reset, a cleanup deletes no
  -- bucket, however long it was not used: every call of Allow leaves a count in its bucket.
  pub cleanup-after_calls :
      (config : Config) (calls : List Call) (now : Time)
      → length calls ≤ max_int
      → cleanup (after_calls (new_token_bucket config) calls) now
        ≡ after_calls (new_token_bucket config) calls
  unfolding cleanup
  cleanup-after_calls config calls now le =
      let tb = after_calls (new_token_bucket config) calls in
      let used =
        after_calls-Used (new_token_bucket config) calls 0 (omega arith) (new-Used config) in
      ap (λ m. record tb { buckets = m })
        (drop_stale-Used (add_time now (minus_twice tb.config.window)) (length calls) tb.buckets
          (subst (λ m. Each (λ k b. Used m b) tb.buckets) (omega arith) used))
