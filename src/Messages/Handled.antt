-- ===== src/Messages/Handled.antt =====
-- What HandleMessage (cmd/service/message_handler.go) leaves, whatever the repository and the queue do.
use order_flow.Prelude.{
  ℕ, zero, suc, ◌+◌, ◌-◌, ◌≤◌, ◌<◌, ◌≡◌, ◌⊎◌, inl, inr, refl, sym, ap, ◌∙◌, false, none, some, [],
  ◌∷◌, pos, if◌then◌else◌, ltb, max_int, Time, str_eq, arith,
}
use order_flow.Model.{Order}
use order_flow.Errors.{GoError, str, annotated, error_text}
use order_flow.Floats.{Floats}
use order_flow.Config.{RetryConfig}
use order_flow.Cache.{set, get}
use order_flow.Cache.Writes.{get-set}
use order_flow.OrderValidator.{validate}
use order_flow.Dlq.{Bytes, DlqService, failed, succeeded, send_to_dlq}
use order_flow.Retry.{exhausted}
use order_flow.Retry.Attempts.{
  world_after, error_at, AllFail, execute_with_retry-success, execute_with_retry-exhausted,
}
use order_flow.Messages.{Services, App, process_message, handle_message}
use order_flow.Messages.Attempted.{first_success, world_after-suc, stuck}

module _ {W : Type 0} (services : Services W) where
  open services use {unmarshal, check, now, marshal, write_message}

  -- The application after the last attempt failed with an error: SendToDLQ is called once with the
  -- message and the error's text.
  abbrev pub given_up : DlqService → Bytes → GoError → App W → App W
  given_up dlq msg e app = record app {
    world = (send_to_dlq marshal write_message dlq (now app.world) msg (error_text e) app.world).1;
  }

  module _ (fl : Floats) (cfg : RetryConfig fl.Float) (dlq : DlqService) (msg : Bytes) where
    handle-success :
        (k n : ℕ) (app : App W)
        → cfg.max_attempts ≡ pos n
        → k < n
        → AllFail (process_message services msg) k app
        → error_at (process_message services msg) k app ≡ none
        → handle_message services fl cfg dlq msg app
          ≡ (none, world_after (process_message services msg) (suc k) app)
    unfolding handle_message
    handle-success k n app eq lt fails ok =
        rw (execute_with_retry-success fl cfg (process_message services msg) k n app eq lt fails ok)
          refl

    handle-exhausted :
        (n : ℕ) (app : App W) (e : GoError)
        → cfg.max_attempts ≡ pos (suc n)
        → AllFail (process_message services msg) n app
        → error_at (process_message services msg) n app ≡ some e
        → handle_message services fl cfg dlq msg app ≡ (
          some (exhausted cfg.max_attempts e),
          given_up dlq msg
              (exhausted cfg.max_attempts e)
              (world_after (process_message services msg) (suc n) app),
        )
    unfolding handle_message
    handle-exhausted n app e eq fails err =
        rw (execute_with_retry-exhausted fl cfg (process_message services msg) n app e eq fails err)
          refl

    -- With a positive maximum of attempts, either one attempt is the first to succeed, and HandleMessage
    -- returns nil with the application as that attempt leaves it, without a call of SendToDLQ; or all
    -- attempts fail, and it returns an error that wraps the last failure, after one call of SendToDLQ
    -- with the message and that error's text.
    pub handle_message-cases :
        (n : ℕ) (app : App W)
        → cfg.max_attempts ≡ pos (suc n)
        → ((k : ℕ) × (k ≤ n)
            × AllFail (process_message services msg) k app
            × (error_at (process_message services msg) k app ≡ none)
            × (handle_message services fl cfg dlq msg app
                ≡ (none, world_after (process_message services msg) (suc k) app)))
          ⊎ ((e : GoError) × AllFail (process_message services msg) n app
              × (error_at (process_message services msg) n app ≡ some e)
              × (handle_message services fl cfg dlq msg app ≡ (
                some (exhausted cfg.max_attempts e),
                given_up dlq msg
                    (exhausted cfg.max_attempts e)
                    (world_after (process_message services msg) (suc n) app),
              )))
    handle_message-cases n app eq = elim (first_success (process_message services msg) n app) [
      | inl (k, le, fails, ok) ↦
          inl (k, le, fails, ok, handle-success k (suc n) app eq (omega arith) fails ok)
      | inr (e, fails, err) ↦ inr (e, fails, err, handle-exhausted n app e eq fails err)
    ]

  pub process_message-failed :
      (msg : Bytes) (app : App W) (c : GoError)
      → unmarshal msg ≡ failed c
      → process_message services msg app
        ≡ (some (annotated (str "failed to parse JSON: " ∷ []) c), app)
  unfolding process_message
  process_message-failed msg app c h = rw h refl

  pub process_message-rejected :
      (msg : Bytes) (app : App W) (o : Order) (c : GoError)
      → unmarshal msg ≡ succeeded o
      → validate check (some o) ≡ some c
      → process_message services msg app
        ≡ (some (annotated (str "order validation failed: " ∷ []) c), app)
  unfolding process_message
  process_message-rejected msg app o c h v = rw (h, v) refl

  -- A failed attempt leaves the cache as it is.
  process_message-cache :
      (msg : Bytes) (app : App W) (e : GoError)
      → (process_message services msg app).0 ≡ some e
      → (process_message services msg app).1.cache ≡ app.cache
  unfolding process_message
  process_message-cache msg app e h = ground arith

  module _ (fl : Floats) (cfg : RetryConfig fl.Float) (dlq : DlqService) (msg : Bytes) where
    handle-stuck :
        (n : ℕ) (app : App W) (e : GoError)
        → cfg.max_attempts ≡ pos (suc n)
        → process_message services msg app ≡ (some e, app)
        → handle_message services fl cfg dlq msg app ≡ (
          some (exhausted cfg.max_attempts e),
          given_up dlq msg (exhausted cfg.max_attempts e) app,
        )
    handle-stuck n app e eq h =
        let (fails, at) = stuck (process_message services msg) n app e h in
        let err = ap (λ a. (process_message services msg a).0) at ∙ ap (λ r. r.0) h in
        handle-exhausted fl cfg dlq msg n app e eq fails err
        ∙ ap
            (λ a. (
              some (exhausted cfg.max_attempts e),
              given_up dlq msg (exhausted cfg.max_attempts e) a,
            ))
            (stuck (process_message services msg) (suc n) app e h).1

    -- A message that is no JSON of an order, or whose order the validator rejects, is neither saved nor
    -- cached: after all attempts SendToDLQ is called once, with the text of an error that wraps the
    -- parser's or the validator's, and that call is all that happens to the application. The maximum of
    -- attempts is positive.
    pub handle_message-rejected :
        (n : ℕ) (app : App W) (e : GoError)
        → cfg.max_attempts ≡ pos (suc n)
        → ((c : GoError) × (unmarshal msg ≡ failed c)
            × (e ≡ annotated (str "failed to parse JSON: " ∷ []) c))
          ⊎ ((o : Order) × (c : GoError) × (unmarshal msg ≡ succeeded o)
              × (validate check (some o) ≡ some c)
              × (e ≡ annotated (str "order validation failed: " ∷ []) c))
        → handle_message services fl cfg dlq msg app ≡ (
          some (exhausted cfg.max_attempts e),
          given_up dlq msg (exhausted cfg.max_attempts e) app,
        )
    handle_message-rejected n app e eq (inl (c, h, at)) =
        handle-stuck n app e eq
          (process_message-failed msg app c h ∙ ap (λ x. (some x, app)) (sym at))
    handle_message-rejected n app e eq (inr (o, c, h, v, at)) =
        handle-stuck n app e eq
          (process_message-rejected msg app o c h v ∙ ap (λ x. (some x, app)) (sym at))

  world_after-cache :
      (msg : Bytes) (k : ℕ) (app : App W)
      → AllFail (process_message services msg) k app
      → (world_after (process_message services msg) k app).cache ≡ app.cache
  unfolding world_after
  world_after-cache msg zero app fails = refl
  world_after-cache msg (suc k) app ((e, h), fails) =
      world_after-cache msg k (process_message services msg app).1 fails
      ∙ process_message-cache msg app e h

  -- An attempt that succeeds caches the order at the time read after SaveOrder.
  process_message-set :
      (msg : Bytes) (app : App W) (o : Order)
      → unmarshal msg ≡ succeeded o
      → (process_message services msg app).0 ≡ none
      → (process_message services msg app).1.cache
        ≡ set (now (services.save_order o app.world).1) (some o) app.cache
  unfolding process_message
  process_message-set msg app o h ok = ground arith

  -- The clock reading with which the attempt after `k` failed ones stores its order.
  abbrev pub stored_at : Bytes → Order → ℕ → App W → Time
  stored_at msg o k app =
      now (services.save_order o (world_after (process_message services msg) k app).world).1

  -- After HandleMessage has returned nil for a message that is an order with a UID, the cache answers
  -- with that order until the time to live of the cache has passed since the clock reading that
  -- follows the SaveOrder of the first attempt that succeeded, and not after that. The maximum of
  -- attempts is positive, and the time to live is not negative and below 2^63 - 1 nanoseconds.
  pub handle_message-get :
      (fl : Floats) (cfg : RetryConfig fl.Float) (dlq : DlqService) (msg : Bytes) (n d : ℕ)
      (app : App W) (o : Order)
      → cfg.max_attempts ≡ pos (suc n)
      → unmarshal msg ≡ succeeded o
      → str_eq o.order_uid "" ≡ false
      → app.cache.ttl ≡ pos d
      → d ≤ max_int - 1
      → (handle_message services fl cfg dlq msg app).0 ≡ none
      → (k : ℕ) × (k ≤ n)
        × AllFail (process_message services msg) k app
        × (error_at (process_message services msg) k app ≡ none)
        × ((later : Time)
            → (get later o.order_uid (handle_message services fl cfg dlq msg app).1.cache).1
              ≡ (if ltb (stored_at msg o k app + d) later then none else some o))
  handle_message-get fl cfg dlq msg n d app o eq h ne ttl fits ok =
      elim (handle_message-cases fl cfg dlq msg n app eq) [
        | inl (k, le, fails, good, at) ↦
            let last = world_after (process_message services msg) k app in
            let cached = process_message-set msg last o h good in
            let kept = world_after-cache msg k app fails in
            let final =
              ap (λ r. r.1.cache) at
              ∙ ap (λ a. a.cache) (world_after-suc (process_message services msg) k app)
              ∙ cached in
            (
              k,
              le,
              fails,
              good,
              λ later.
                  ap (λ c. (get later o.order_uid c).1) final
                  ∙ get-set (stored_at msg o k app) later o last.cache d ne
                      (ap (λ c. c.ttl) kept ∙ ttl) fits,
            )
        | inr (e, fails, err, at) ↦ let bad = sym ok ∙ ap (λ r. r.0) at in ground arith
      ]
