-- ===== src/RateLimit/Middleware.antt =====
-- The HTTP middleware of internal/ratelimit/middleware.go. A request is what the middleware reads of
-- it; the next handler is a function from the world to what it writes and the world after it. The
-- decimal text of a number and the RFC 3339 text of a time (`strconv.Itoa`, `Time.Format`) are
-- parameters.
use order_flow.Prelude.{
  Bool, true, false, Option, none, some, [], ◌∷◌, ◌++◌, ℤ, if◌then◌else◌, Time, Duration, String,
  str_eq,
}
use order_flow.Strings.{append_str, before_sep, has_prefix}
use order_flow.Http.{
  Response, set_header, write_header, write, http_error, status_too_many_requests,
  status_internal_server_error,
}
use order_flow.Errors.{GoError}
use order_flow.Floats.{Floats}
use order_flow.RateLimit.{Config, Answer, sub_int}
use order_flow.RateLimit.Window
use order_flow.RateLimit.Bucket

pub record Request : Type 0 where
  pub forwarded_for : String
  pub real_ip : String
  pub user_id : String
  pub remote_addr : String
  pub path : String

abbrev or_else : String → String → String
or_else s d = if str_eq s "" then d else s

-- `DefaultKeyFunc`, and `IPKeyFunc`, which calls it; the code of a colon is 58.
unfoldable pub default_key_func : Request → String
default_key_func r = or_else (or_else r.forwarded_for r.real_ip) (before_sep 58 r.remote_addr)

-- `UserKeyFunc`
unfoldable pub user_key_func : Request → String
user_key_func r =
    if str_eq r.user_id ""
    then append_str "ip:" (default_key_func r)
    else append_str "user:" r.user_id

-- `PathKeyFunc`
abbrev grouped_path : String → String
grouped_path path =
    if has_prefix path "/api/orders/"
    then "/api/orders/*"
    else (if has_prefix path "/api/" then "/api/*" else path)

unfoldable pub path_key_func : Request → String
path_key_func r = append_str (default_key_func r) (append_str ":" (grouped_path r.path))

-- `DefaultOnLimit`
unfoldable pub default_on_limit : Response
default_on_limit =
    set_header "Content-Type" "application/json"
    ∷ write_header status_too_many_requests
    ∷ write "{\"error\": \"Rate limit exceeded\", \"message\": \"Too many requests\"}"
    ∷ []

-- `CustomOnLimit`; the body is written as the parts that are joined.
unfoldable pub custom_on_limit : String → Response
custom_on_limit message =
    set_header "Content-Type" "application/json"
    ∷ write_header status_too_many_requests
    ∷ write "{\"error\": \"Rate limit exceeded\", \"message\": \""
    ∷ write message
    ∷ write "\"}"
    ∷ []

-- `CustomOnLimitWithRetry`; the decimal text of the whole seconds of a duration is a parameter.
unfoldable pub custom_on_limit_with_retry : (Duration → String) → String → Duration → Response
custom_on_limit_with_retry seconds_text message retry_after =
    set_header "Content-Type" "application/json"
    ∷ set_header "Retry-After" (seconds_text retry_after)
    ∷ write_header status_too_many_requests
    ∷ write "{\"error\": \"Rate limit exceeded\", \"message\": \""
    ∷ write message
    ∷ write "\", \"retry_after\": "
    ∷ write (seconds_text retry_after)
    ∷ write "}"
    ∷ []

module _ (fl : Floats) where
  open fl use {Float}

  -- The implementations of the interface `RateLimiter`.
  pub data RateLimiter : Type 0 where
    token_bucket : Bucket.TokenBucket Float → RateLimiter
    fixed_window : Window.FixedWindow → RateLimiter

  unfoldable pub new_rate_limiter : Config → String → RateLimiter
  new_rate_limiter config algorithm =
      if str_eq algorithm "token-bucket"
      then token_bucket (Bucket.new_token_bucket config)
      else (if str_eq algorithm "fixed-window"
          then fixed_window (Window.new_fixed_window config)
          else token_bucket (Bucket.new_token_bucket config))

  abbrev as_token_bucket : Answer (Bucket.TokenBucket Float) → Answer RateLimiter
  as_token_bucket a = record {
    allowed = a.allowed;
    error = a.error;
    limiter = token_bucket a.limiter;
  }

  abbrev as_fixed_window : Answer Window.FixedWindow → Answer RateLimiter
  as_fixed_window a = record {
    allowed = a.allowed;
    error = a.error;
    limiter = fixed_window a.limiter;
  }

  unfoldable pub allow_request : RateLimiter → String → Time → Time → Answer RateLimiter
  allow_request (token_bucket tb) key created now =
      as_token_bucket (Bucket.allow fl tb key created now)
  allow_request (fixed_window fw) key created now =
      as_fixed_window (Window.allow fw key created now)

  -- `Middleware`; the logger is left out.
  pub record Middleware : Type 0 where
    pub limiter : RateLimiter
    pub key_func : Request → String
    pub on_limit : Request → String → Response

  -- `NewMiddleware`
  unfoldable pub new_middleware : Config → String → Middleware
  unfolding new_rate_limiter default_key_func default_on_limit
  new_middleware config algorithm = record {
    limiter = new_rate_limiter config algorithm;
    key_func = default_key_func;
    on_limit = λ r key. default_on_limit;
  }

  abbrev pub with_key_func : Middleware → (Request → String) → Middleware
  with_key_func m f = record m { key_func = f }

  abbrev pub with_on_limit : Middleware → (Request → String → Response) → Middleware
  with_on_limit m f = record m { on_limit = f }

  module _ (itoa : ℤ → String) (rfc3339 : Time → String) where
    -- The headers of a request that is let through; only a token bucket has them.
    unfoldable pub limit_headers : RateLimiter → String → Response
    limit_headers (fixed_window fw) key = []
    limit_headers (token_bucket tb) key =
        let s = Bucket.stats tb key in
        set_header "X-RateLimit-Limit" (itoa tb.config.requests)
        ∷ set_header "X-RateLimit-Remaining" (itoa (sub_int tb.config.requests s.allowed))
        ∷ set_header "X-RateLimit-Reset" (rfc3339 s.reset_time)
        ∷ []

    module _ {W : Type 0} (next : W → Response × W) where
      abbrev serve_next : Response → W → Response × W
      serve_next headers w = let (body, w') = next w in (headers ++ body, w')

      -- The handler on what Allow answered.
      respond :
          Middleware → Request → String → Bool → Option GoError → RateLimiter → W → Response × W
      respond m r key allowed (some e) limiter w =
          (http_error "Internal Server Error" status_internal_server_error, w)
      respond m r key false none limiter w = (m.on_limit r key, w)
      respond m r key true none limiter w = serve_next (limit_headers limiter key) w

      -- `Handler`
      unfoldable pub handle : Middleware → Request → Time → Time → W → Middleware × (Response × W)
      unfolding respond
      handle m r created now w =
          let key = m.key_func r in
          let answer = allow_request m.limiter key created now in
          (
            record m { limiter = answer.limiter },
            respond m r key answer.allowed answer.error answer.limiter w,
          )
