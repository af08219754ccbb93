-- ===== src/RateLimit/Responses.antt =====
-- What the rate limiting middleware (internal/ratelimit/middleware.go) answers.
use order_flow.Prelude.{
  ◌≡◌, ◌≢◌, refl, sym, ap, ◌∙◌, true, false, none, some, List, ◌∷◌, ℤ, pos, succ_int, Time, String,
  str_eq, insert, lookup, lookup-insert, eq_iff, arith,
}
use order_flow.Strings.{append_str, codes}
use order_flow.Http.{Response, set_header}
use order_flow.Floats.{Floats}
use order_flow.RateLimit.{sub_int}
use order_flow.RateLimit.Window
use order_flow.RateLimit.Bucket
use order_flow.RateLimit.Middleware.{
  Request, RateLimiter, token_bucket, fixed_window, default_key_func, user_key_func, allow_request,
  Middleware, limit_headers, handle,
}

-- A request that names a user and one that does not never share a key, whatever the user, the
-- addresses and the headers are.
user_key_func-ne :
    (r s : Request)
    → str_eq r.user_id "" ≡ false
    → str_eq s.user_id "" ≡ true
    → user_key_func r ≢ user_key_func s
unfolding user_key_func append_str
user_key_func-ne r s h k eq =
    let u : user_key_func r ≡ append_str "user:" r.user_id = rw h refl in
    let i : user_key_func s ≡ append_str "ip:" (default_key_func s) = rw k refl in
    let c : codes (append_str "user:" r.user_id) ≡ codes (append_str "ip:" (default_key_func s)) =
      ap codes (sym u ∙ eq ∙ i) in
    ground arith

module _ (fl : Floats) where
  open fl use {Float}

  lookup-own :
      {V : Type 0} (key : String) (v : V) (m : List (String × V))
      → lookup key (insert key v m) ≡ some v
  lookup-own key v m = ground (arith, lookup-insert key key v m, eq_iff key key)

  current-allowed :
      (tb : Bucket.TokenBucket Float) (key : String) (created now : Time)
      → (Bucket.current fl tb key created now).allowed ≡ (Bucket.stats tb key).allowed
  unfolding Bucket.stats Bucket.current Bucket.get_or_create_bucket Bucket.refill
  current-allowed tb key created now = ground arith

  allowed-bucket :
      (tb : Bucket.TokenBucket Float) (key : String) (created now : Time)
      → (Bucket.allow fl tb key created now).allowed ≡ true
      → (Bucket.stats (Bucket.allow fl tb key created now).limiter key).allowed
        ≡ succ_int (Bucket.stats tb key).allowed
  unfolding Bucket.allow Bucket.stats
  allowed-bucket tb key created now h =
      let b = Bucket.current fl tb key created now in
      ap (λ o. (Bucket.bucket_stats tb.config.window o).allowed)
        (lookup-own key (Bucket.take_token fl (fl.le (fl.of_int (pos 1)) b.tokens) b) tb.buckets)
      ∙ (ap (λ a. (Bucket.take_token fl a b).allowed) h
          ∙ ap succ_int (current-allowed tb key created now))

  config-bucket :
      (tb : Bucket.TokenBucket Float) (key : String) (created now : Time)
      → ((Bucket.allow fl tb key created now).limiter.config ≡ tb.config)
        × ((Bucket.allow fl tb key created now).error ≡ none)
  unfolding Bucket.allow
  config-bucket tb key created now = (refl, refl)

  allow_request-error :
      (l : RateLimiter fl) (key : String) (created now : Time)
      → (allow_request fl l key created now).error ≡ none
  unfolding allow_request Bucket.allow Window.allow
  allow_request-error (token_bucket tb) key created now = refl
  allow_request-error (fixed_window fw) key created now = refl

  -- Behind a token bucket, a request that is let through runs the next handler once; its response is that
  -- handler's behind three headers: the configured limit, the limit less the count of all requests of the
  -- key that were let through, this one included, and the time of the statistics.
  handle_bucket :
      {W : Type 0} (itoa : ℤ → String) (rfc3339 : Time → String) (next : W → Response × W)
      (key_func : Request → String) (on_limit : Request → String → Response)
      (tb : Bucket.TokenBucket Float) (r : Request) (created now : Time) (w : W)
      → (Bucket.allow fl tb (key_func r) created now).allowed ≡ true
      → (handle fl itoa rfc3339 next
          (record { limiter = token_bucket tb; key_func = key_func; on_limit = on_limit })
          r
          created
          now
          w).1
        ≡ (
          set_header "X-RateLimit-Limit" (itoa tb.config.requests)
              ∷ set_header "X-RateLimit-Remaining" (
                  itoa
                    (sub_int tb.config.requests (succ_int (Bucket.stats tb (key_func r)).allowed)))
              ∷ set_header "X-RateLimit-Reset" (
                  rfc3339
                    (Bucket.stats
                      (Bucket.allow fl tb (key_func r) created now).limiter
                      (key_func r)).reset_time)
              ∷ (next w).0,
          (next w).1,
        )
  unfolding handle allow_request limit_headers
  handle_bucket itoa rfc3339 next key_func on_limit tb r created now w h =
      let c = config-bucket tb (key_func r) created now in
      let a = allowed-bucket tb (key_func r) created now h in ground arith

  -- Whatever the limiter is, a request that it does not let through does not reach the next handler, and
  -- is answered by the middleware's function for this.
  handle_limited :
      {W : Type 0} (itoa : ℤ → String) (rfc3339 : Time → String) (next : W → Response × W)
      (m : Middleware fl) (r : Request) (created now : Time) (w : W)
      → (allow_request fl m.limiter (m.key_func r) created now).allowed ≡ false
      → (handle fl itoa rfc3339 next m r created now w).1 ≡ (m.on_limit r (m.key_func r), w)
  unfolding handle
  handle_limited itoa rfc3339 next m r created now w h =
      let e = allow_request-error m.limiter (m.key_func r) created now in ground arith
