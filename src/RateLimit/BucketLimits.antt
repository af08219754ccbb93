-- ===== src/RateLimit/BucketLimits.antt =====
-- How many calls TokenBucket.Allow (internal/ratelimit/ratelimit.go) lets through at one time, whatever
-- has happened before.
use Prim.Native.Nat.{max}
use order_flow.Prelude.{
  ℕ, zero, suc, ◌≤◌, ◌≡◌, ◌⊎◌, refl, sym, subst, ap, ◌∙◌, Bool, true, false, ◌&&◌, inl, inr, Option,
  none, some, List, [], ◌∷◌, pos, leb_ℤ, if◌then◌else◌, Time, Duration, sub_time, String, str_eq,
  Dict, lookup, insert, lookup-insert, eq_iff, arith, Bool-cases, Option-cases, Each, Each-lookup,
  Each-insert,
}
use order_flow.Floats.{Floats}
use order_flow.RateLimit.{Config}
use order_flow.RateLimit.Bucket.{
  Bucket, TokenBucket, get_or_create_bucket, refilled, refill, take_token, current, allow, reset,
  drop_stale, cleanup, is_stale, new_token_bucket,
}
use order_flow.RateLimit.WindowLimits.{Call}

-- What float64 does with the whole numbers up to a bound (2^53): they keep their order, and a float
-- that is not above one of them, less 1, is not above the number before it.
pub record WholeLaws (fl : Floats) (bound : ℕ) : Type 0 where
  pub lt_int : (m n : ℕ) → m ≤ n → n ≤ bound → fl.lt (fl.of_int (pos n)) (fl.of_int (pos m)) ≡ false
  pub lt_le :
      (m n : ℕ) (x : fl.Float)
      → m ≤ n
      → n ≤ bound
      → fl.lt (fl.of_int (pos m)) x ≡ false
      → fl.lt (fl.of_int (pos n)) x ≡ false
  pub sub_one :
      (n : ℕ) (x : fl.Float)
      → suc n ≤ bound
      → fl.lt (fl.of_int (pos (suc n))) x ≡ false
      → fl.lt (fl.of_int (pos n)) (fl.sub x (fl.of_int (pos 1))) ≡ false
  pub one_le :
      (x : fl.Float) → fl.lt (fl.of_int (pos 0)) x ≡ false → fl.le (fl.of_int (pos 1)) x ≡ false

-- What happens to a limiter: a call of Allow or of Reset, or a cleanup.
pub data Op : Type 0 where
  call : Call → Op
  restart : String → Time → Op
  sweep : Time → Op

lookup-own : {V : Type 0} (key : String) (v : V) (m : Dict V) → lookup key (insert key v m) ≡ some v
lookup-own key v m = ground (arith, lookup-insert key key v m, eq_iff key key)

sub_time_self : (t : Time) → sub_time t t ≡ pos 0
unfolding sub_time
sub_time_self t = ground arith

module _ (fl : Floats) where
  open fl use {Float, of_int, add, mul, div, le, lt}

  unfoldable pub run : TokenBucket Float → List Op → TokenBucket Float
  run tb [] = tb
  run tb (call c ∷ ops) = run (allow fl tb c.key c.created c.now).limiter ops
  run tb (restart key now ∷ ops) = run (reset fl tb key now) ops
  run tb (sweep now ∷ ops) = run (cleanup tb now) ops

  -- How many calls of a key are let through, of those for a sequence of keys whose times are all `t`;
  -- beside a key stands the clock reading for a new bucket.
  unfoldable pub admitted_at : Time → String → TokenBucket Float → List (String × Time) → ℕ
  admitted_at t key tb [] = 0
  admitted_at t key tb ((k, created) ∷ keys) =
      let answer = allow fl tb k created t in
      let rest = admitted_at t key answer.limiter keys in
      if str_eq k key && answer.allowed then suc rest else rest

  module _ (bound : ℕ) (laws : WholeLaws fl bound) (burst top : ℕ) (fits : top ≤ bound)
      (le_burst : burst ≤ top) where
    abbrev AtMost : ℕ → Float → Type 0
    AtMost n x = lt (of_int (pos n)) x ≡ false

    abbrev Within : Bucket Float → Type 0
    Within b = AtMost top b.tokens × (b.burst ≡ of_int (pos burst))

    abbrev Fits : Config → Type 0
    Fits config = (r : ℕ) × (config.requests ≡ pos r) × (r ≤ top) × (config.burst ≡ pos burst)

    create-Within :
        (config : Config) (o : Option (Bucket Float)) (created : Time)
        → Fits config
        → ((b : Bucket Float) → o ≡ some b → Within b)
        → Within (get_or_create_bucket fl config o created)
    unfolding get_or_create_bucket
    create-Within config none created (r, req, le, bu) each =
        (rw req (laws.lt_int r top le fits), ap of_int bu)
    create-Within config (some b) created f each = each b refl

    refilled-AtMost :
        (config : Config) (b : Bucket Float) (e : Duration)
        → b.burst ≡ of_int (pos burst)
        → AtMost top (refilled fl config b e)
    unfolding refilled
    refilled-AtMost config b e at =
        let tokens =
          add b.tokens (mul (div (of_int e) (of_int config.window)) (of_int config.requests)) in
        elim (Bool-cases (lt b.burst tokens)) [
          | inl h ↦ rw (h, at) (laws.lt_int burst top le_burst fits)
          | inr h ↦
              rw h
                (laws.lt_le burst top tokens le_burst fits (subst (λ x. lt x tokens ≡ false) at h))
        ]

    -- No refill at the time `t`.
    abbrev Rested : Time → Bucket Float → Type 0
    Rested t b = leb_ℤ (sub_time t b.last_refill) (pos 0) ≡ true

    refill-Within :
        (config : Config) (b : Bucket Float) (t : Time)
        → Within b
        → Within (refill fl config b t) × Rested t (refill fl config b t)
    unfolding refill
    refill-Within config b t (le, at) =
        elim (Bool-cases (leb_ℤ (sub_time t b.last_refill) (pos 0))) [
          | inl h ↦ rw h ((le, at), h)
          | inr h ↦ rw h (
            (refilled-AtMost config b (sub_time t b.last_refill) at, at),
            rw (sub_time_self t) refl,
          )
        ]

    -- A token is taken only from a bucket that has one.
    take_token-AtMost :
        (n : ℕ) (b : Bucket Float) (allowed : Bool)
        → n ≤ bound
        → le (of_int (pos 1)) b.tokens ≡ allowed
        → AtMost n b.tokens
        → (m : ℕ) × (n ≡ (if allowed then suc m else m)) × AtMost m (take_token fl allowed b).tokens
    take_token-AtMost n b false bd h at = (n, refl, at)
    take_token-AtMost zero b true bd h at = let no = laws.one_le b.tokens at in ground arith
    take_token-AtMost (suc n) b true bd h at = (n, refl, laws.sub_one n b.tokens bd at)

    abbrev IsValid : TokenBucket Float → Type 0
    IsValid tb = Fits tb.config × Each (λ k b. Within b) tb.buckets

    current-Within :
        (tb : TokenBucket Float) (key : String) (created now : Time)
        → IsValid tb
        → Within (current fl tb key created now) × Rested now (current fl tb key created now)
    unfolding current
    current-Within tb key created now (f, each) =
        refill-Within tb.config (get_or_create_bucket fl tb.config (lookup key tb.buckets) created)
          now
          (create-Within tb.config (lookup key tb.buckets) created f
            (λ b h. Each-lookup (λ k b. Within b) key tb.buckets each h))

    take-Within :
        (b : Bucket Float) → Within b → Within (take_token fl (le (of_int (pos 1)) b.tokens) b)
    take-Within b (at, bu) =
        let (m, eq, kept) = take_token-AtMost top b (le (of_int (pos 1)) b.tokens) fits refl at in
        (
          laws.lt_le m top (take_token fl (le (of_int (pos 1)) b.tokens) b).tokens
              (ground (arith, eq)) fits kept,
          ground (arith, bu),
        )

    new-Within :
        (config : Config) → Each (λ k b. Within b) (new_token_bucket {F = Float} config).buckets
    unfolding new_token_bucket
    new-Within config = tt

    allow-IsValid :
        (tb : TokenBucket Float) (key : String) (created now : Time)
        → IsValid tb
        → IsValid (allow fl tb key created now).limiter
    unfolding allow
    allow-IsValid tb key created now (f, each) =
        let b = current fl tb key created now in
        (
          f,
          Each-insert (λ k b. Within b) key (take_token fl (le (of_int (pos 1)) b.tokens) b)
              tb.buckets (take-Within b (current-Within tb key created now (f, each)).0) each,
        )

    reset-IsValid :
        (tb : TokenBucket Float) (key : String) (now : Time)
        → IsValid tb
        → IsValid (reset fl tb key now)
    unfolding reset
    reset-IsValid tb key now ((r, req, le, bu), each) =
        elim (Option-cases (lookup key tb.buckets)) [
          | inl none_at ↦ rw none_at ((r, req, le, bu), each)
          | inr (b, at) ↦
              let within = Each-lookup (λ k b. Within b) key tb.buckets each at in
              rw at (
                (r, req, le, bu),
                Each-insert (λ k b. Within b) key _ tb.buckets
                    (rw req (laws.lt_int r top le fits), within.1) each,
              )
        ]

    drop_stale-Within :
        (cutoff : Time) (m : Dict (Bucket Float))
        → Each (λ k b. Within b) m
        → Each (λ k b. Within b) (drop_stale cutoff m)
    unfolding drop_stale
    drop_stale-Within cutoff [] each = tt
    drop_stale-Within cutoff ((k, b) ∷ m) (w, each) =
        let rest = drop_stale-Within cutoff m each in
        elim (Bool-cases (is_stale cutoff b)) [ inl h ↦ rw h rest | inr h ↦ rw h (w, rest) ]

    run-IsValid : (tb : TokenBucket Float) (ops : List Op) → IsValid tb → IsValid (run tb ops)
    unfolding run cleanup
    run-IsValid tb [] v = v
    run-IsValid tb (call c ∷ ops) v =
        run-IsValid (allow fl tb c.key c.created c.now).limiter ops
          (allow-IsValid tb c.key c.created c.now v)
    run-IsValid tb (restart key now ∷ ops) v =
        run-IsValid (reset fl tb key now) ops (reset-IsValid tb key now v)
    run-IsValid tb (sweep now ∷ ops) v =
        run-IsValid (cleanup tb now) ops (v.0, drop_stale-Within _ tb.buckets v.1)

    take-burst : (allowed : Bool) (b : Bucket Float) → (take_token fl allowed b).burst ≡ b.burst
    take-burst true b = refl
    take-burst false b = refl

    take-Rested :
        (t : Time) (allowed : Bool) (b : Bucket Float)
        → Rested t b
        → Rested t (take_token fl allowed b)
    take-Rested t true b h = h
    take-Rested t false b h = h

    -- At most `n` tokens of a key are left at the time `t`.
    abbrev Holds : Time → ℕ → Option (Bucket Float) → Type 0
    Holds t n none = n ≡ top
    Holds t n (some b) =
        (AtMost n b.tokens × (b.burst ≡ of_int (pos burst))) × (Rested t b ⊎ (n ≡ top))

    refill_idle :
        (config : Config) (b : Bucket Float) (t : Time) → Rested t b → refill fl config b t ≡ b
    unfolding refill
    refill_idle config b t h = rw h refl

    current-Holds :
        (config : Config) (o : Option (Bucket Float)) (created t : Time) (n : ℕ)
        → Fits config
        → Holds t n o
        → let b = refill fl config (get_or_create_bucket fl config o created) t in
          (AtMost n b.tokens × (b.burst ≡ of_int (pos burst))) × Rested t b
    unfolding get_or_create_bucket
    current-Holds config none created t n f h = rw h (
        refill-Within config (get_or_create_bucket fl config none created) t
          (create-Within config none created f (λ b e. cc)))
    current-Holds config (some b) created t n f (w, inl rested) =
        rw (refill_idle config b t rested) (w, rested)
    current-Holds config (some b) created t n f (w, inr h) =
        rw h (refill-Within config b t (rw (← h) w.0, w.1))

    allow-Holds :
        (tb : TokenBucket Float) (key : String) (created t : Time) (n : ℕ)
        → n ≤ top
        → Fits tb.config
        → Holds t n (lookup key tb.buckets)
        → let answer = allow fl tb key created t in
          (m : ℕ) × (n ≡ (if answer.allowed then suc m else m))
          × (m ≤ top)
          × Holds t m (lookup key answer.limiter.buckets)
    unfolding allow current
    allow-Holds tb key created t n le f h =
        let b =
          refill fl tb.config (get_or_create_bucket fl tb.config (lookup key tb.buckets) created)
            t in
        let (w, rested) = current-Holds tb.config (lookup key tb.buckets) created t n f h in
        let allowed = fl.le (of_int (pos 1)) b.tokens in
        let (m, eq, kept) = take_token-AtMost n b allowed (omega (arith, fits)) refl w.0 in
        (
          m,
          eq,
          ground (arith, eq),
          subst (Holds t m) (sym (lookup-own key (take_token fl allowed b) tb.buckets))
              ((kept, take-burst allowed b ∙ w.1), inl (take-Rested t allowed b rested)),
        )

    lookup-allow_other :
        (tb : TokenBucket Float) (created t : Time) (key other : String)
        → str_eq other key ≡ false
        → lookup key (allow fl tb other created t).limiter.buckets ≡ lookup key tb.buckets
    unfolding allow
    lookup-allow_other tb created t key other h = ground (
      arith,
      lookup-insert other key
          (take_token fl (le (of_int (pos 1)) (current fl tb other created t).tokens)
            (current fl tb other created t))
          tb.buckets,
    )

    config-allow :
        (tb : TokenBucket Float) (created t : Time) (key : String)
        → (allow fl tb key created t).limiter.config ≡ tb.config
    unfolding allow
    config-allow tb created t key = refl

    admitted_at-Holds :
        (t : Time) (key : String) (tb : TokenBucket Float) (keys : List (String × Time)) (n : ℕ)
        → n ≤ top
        → Fits tb.config
        → Holds t n (lookup key tb.buckets)
        → admitted_at t key tb keys ≤ n
    unfolding admitted_at
    admitted_at-Holds t key tb [] n le f h = omega arith
    admitted_at-Holds t key tb ((k, created) ∷ keys) n le f h =
        let after = (allow fl tb k created t).limiter in
        let f' = subst Fits (sym (config-allow tb created t k)) f in
        elim (Bool-cases (str_eq k key)) [
          | inl e ↦
              let same = (eq_iff k key).0 e in
              let (m, eq, le', h') =
                allow-Holds tb k created t n le f
                  (subst (λ j. Holds t n (lookup j tb.buckets)) (sym same) h) in
              let rest =
                admitted_at-Holds t key after keys m le' f'
                  (subst (λ j. Holds t m (lookup j after.buckets)) same h') in
              ground (arith, eq, rest)
          | inr e ↦
              let kept = lookup-allow_other tb created t key k e in
              let rest =
                admitted_at-Holds t key after keys n le f' (subst (Holds t n) (sym kept) h) in
              ground (arith, rest)
        ]

    start-Holds :
        (tb : TokenBucket Float) (t : Time) (key : String)
        → IsValid tb
        → Holds t top (lookup key tb.buckets)
    start-Holds tb t key (f, each) = elim (Option-cases (lookup key tb.buckets)) [
      | inl h ↦ rw h refl
      | inr (b, h) ↦ rw h (Each-lookup (λ k b. Within b) key tb.buckets each h, inr refl)
    ]

  new_token_bucket-config :
      (config : Config) (r burst : ℕ)
      → config.requests ≡ pos r
      → config.burst ≡ pos burst
      → let config' = (new_token_bucket {F = Float} config).config in
        (b : ℕ) × (config'.requests ≡ pos r) × (config'.burst ≡ pos b) × (b ≤ max r burst)
  unfolding new_token_bucket
  new_token_bucket-config config r zero req bu =
      (r, ground (arith, req, bu), ground (arith, req, bu), omega arith)
  new_token_bucket-config config r (suc n) req bu =
      (suc n, ground (arith, req, bu), ground (arith, req, bu), omega arith)

  -- After any calls of Allow and Reset and any cleanups of a new limiter, whatever their times: of the
  -- calls of Allow that read one and the same time, at most as many are let through for a key as the
  -- larger of the configured requests and burst, whatever other keys do in between. Both numbers are
  -- among those up to which floats count exactly.
  pub admitted_at-limit :
      (bound : ℕ) (config : Config) (ops : List Op) (t : Time) (key : String)
      (keys : List (String × Time)) (r burst : ℕ)
      → WholeLaws fl bound
      → config.requests ≡ pos r
      → config.burst ≡ pos burst
      → max r burst ≤ bound
      → admitted_at t key (run (new_token_bucket config) ops) keys ≤ max r burst
  admitted_at-limit bound config ops t key keys r burst laws req bu fits =
      let top = max r burst in
      let (b, req', bu', le) = new_token_bucket-config config r burst req bu in
      let tb = run (new_token_bucket config) ops in
      let valid =
        run-IsValid bound laws b top fits le (new_token_bucket config) ops
          ((r, req', omega arith, bu'), new-Within bound laws b top fits le config) in
      admitted_at-Holds bound laws b top fits le t key tb keys top (omega arith) valid.0
        (start-Holds bound laws b top fits le tb t key valid)
