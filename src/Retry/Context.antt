-- ===== src/Retry/Context.antt =====
-- ExecuteWithRetryContext (internal/retry/retry.go) beside ExecuteWithRetry.
use order_flow.Prelude.{
  ℕ, zero, suc, ◌≡◌, refl, Option, none, some, [], ℤ, pos, negsuc, ap, ◌∙◌, Duration, arith, ◌<ℤ◌,
}
use order_flow.Errors.{GoError}
use order_flow.Floats.{Floats}
use order_flow.Config.{RetryConfig}
use order_flow.Retry.{
  retry_loop, execute_with_retry, context_loop, execute_with_retry_context, rounds, calculate_delay,
}

rounds-suc : (m : ℤ) → pos 0 <ℤ m → (k : ℕ) × (rounds m ≡ suc k)
rounds-suc (pos zero) lt = ground arith
rounds-suc (pos (suc n)) lt = (n, refl)
rounds-suc (negsuc n) lt = ground arith

module _ (fl : Floats) {S : Type 0} (cfg : RetryConfig fl.Float) (op : S → Option GoError × S)
    (done : S → Option GoError) (wait : Duration → S → Option GoError × S) where
  context_loop-live :
      (left attempt : ℕ) (s : S) (last : Option GoError)
      → ((t : S) → done t ≡ none)
      → ((d : Duration) (t : S) → wait d t ≡ (none, t))
      → context_loop fl cfg op done wait left attempt s last
        ≡ retry_loop fl cfg op left attempt s last
  unfolding context_loop retry_loop
  context_loop-live zero attempt s last live waits = refl
  context_loop-live (suc left) attempt s last live waits = ground (
    arith,
    live s,
    waits (calculate_delay fl cfg attempt) (op s).1,
    context_loop-live left (suc attempt) (op s).1 (op s).0 live waits,
  )

  -- With a context that is never done, and that lets every wait come to its end, it does what
  -- ExecuteWithRetry does.
  execute_with_retry_context-live :
      (s : S)
      → ((t : S) → done t ≡ none)
      → ((d : Duration) (t : S) → wait d t ≡ (none, t))
      → execute_with_retry_context fl cfg op done wait s ≡ execute_with_retry fl cfg op s
  unfolding execute_with_retry_context execute_with_retry
  execute_with_retry_context-live s live waits =
      context_loop-live (rounds cfg.max_attempts) 1 s none live waits

  -- A context that is done from the start ends the call with the context's error before the operation
  -- has run, for a positive maximum of attempts.
  pub execute_with_retry_context-done :
      (s : S) (c : GoError)
      → pos 0 <ℤ cfg.max_attempts
      → done s ≡ some c
      → execute_with_retry_context fl cfg op done wait s
        ≡ record { error = some c; world = s; slept = [] }
  unfolding execute_with_retry_context context_loop
  execute_with_retry_context-done s c lt h =
      let (k, eq) = rounds-suc cfg.max_attempts lt in
      ap (λ r. context_loop fl cfg op done wait r 1 s none) eq ∙ ground arith
