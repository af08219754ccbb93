-- ===== src/Retry.antt =====
-- The retry service of internal/retry/retry.go. The operation is a function from the world to its error
-- (`none` is nil) and the world after it; the delays that were slept are returned in order.
pub mod Attempts
pub mod Delays
pub mod Context
mod Tests
use order_flow.Prelude.{
  ℕ, zero, suc, ◌+◌, ◌≡◌, Bool, true, false, Option, none, some, List, [], ◌∷◌, ℤ, pos, negsuc,
  eqb_ℤ, Duration, if◌then◌else◌,
}
use order_flow.Errors.{GoError, annotated, Message, str, int}
use order_flow.Floats.{Floats}
use order_flow.Config.{RetryConfig}

-- What a run of the service leaves: its error, the world and the delays.
pub record Ran (S : Type 0) : Type 0 where
  pub error : Option GoError
  pub world : S
  pub slept : List Duration

abbrev pub slept_first : {S : Type 0} → Duration → Ran S → Ran S
slept_first d r = record r { slept = d ∷ r.slept }

-- The rest of a run after a wait for a delay, which the context may have ended.
abbrev pub unless_stopped : {S : Type 0} → Option GoError → Duration → S → Ran S → Ran S
unless_stopped none d s again = slept_first d again
unless_stopped (some c) d s again = record { error = some c; world = s; slept = [] }

-- The rounds of `for attempt := 1; attempt <= MaxAttempts; attempt++`.
abbrev pub rounds : ℤ → ℕ
rounds (pos n) = n
rounds (negsuc n) = 0

-- `fmt.Errorf("operation failed after %d attempts, last error: %w", ...)`
abbrev pub exhausted : ℤ → GoError → GoError
exhausted n e =
    annotated (str "operation failed after " ∷ int n ∷ str " attempts, last error: " ∷ []) e

module _ (fl : Floats) where
  open fl use {Float, of_int, to_int, mul, pow, lt}

  -- The delay before it is capped; the exponent is attempt - 1, for the attempts from 1.
  unfoldable pub uncapped : RetryConfig Float → ℕ → Float
  uncapped cfg zero = mul (of_int cfg.initial_delay) (pow cfg.multiplier (of_int (negsuc 0)))
  uncapped cfg (suc k) = mul (of_int cfg.initial_delay) (pow cfg.multiplier (of_int (pos k)))

  unfoldable pub calculate_delay : RetryConfig Float → ℕ → Duration
  calculate_delay cfg attempt =
      let delay = uncapped cfg attempt in
      to_int (if lt (of_int cfg.max_delay) delay then of_int cfg.max_delay else delay)

  module _ {S : Type 0} (cfg : RetryConfig Float) (op : S → Option GoError × S) where
    -- The rounds that are left, and the number of the next attempt.
    unfoldable pub retry_loop : ℕ → ℕ → S → Option GoError → Ran S
    retry_loop zero attempt s last = record { error = last; world = s; slept = [] }
    retry_loop (suc left) attempt s last =
        let (err, s') = op s in
        elim err [
          | none ↦ record { error = none; world = s'; slept = [] }
          | some e ↦
              let again =
                slept_first (calculate_delay cfg attempt)
                  (retry_loop left (suc attempt) s' (some e)) in
              if eqb_ℤ (pos attempt) cfg.max_attempts
              then record { error = some (exhausted cfg.max_attempts e); world = s'; slept = [] }
              else again
        ]

    unfoldable pub execute_with_retry : S → Ran S
    unfolding retry_loop
    execute_with_retry s = retry_loop (rounds cfg.max_attempts) 1 s none

    -- The context: `done` is `ctx.Err()` where the channel of `ctx.Done()` is closed, and `wait` is the
    -- wait for a delay, which the context may end with its error.
    module _ (done : S → Option GoError) (wait : Duration → S → Option GoError × S) where
      unfoldable pub context_loop : ℕ → ℕ → S → Option GoError → Ran S
      context_loop zero attempt s last = record { error = last; world = s; slept = [] }
      context_loop (suc left) attempt s last = elim (done s) [
        | some c ↦ record { error = some c; world = s; slept = [] }
        | none ↦
            let (err, s') = op s in
            elim err [
              | none ↦ record { error = none; world = s'; slept = [] }
              | some e ↦
                  let d = calculate_delay cfg attempt in
                  let (stop, s'') = wait d s' in
                  let again = context_loop left (suc attempt) s'' (some e) in
                  if eqb_ℤ (pos attempt) cfg.max_attempts
                  then record {
                    error = some (exhausted cfg.max_attempts e);
                    world = s';
                    slept = [];
                  }
                  else unless_stopped stop d s'' again
            ]
      ]

      unfoldable pub execute_with_retry_context : S → Ran S
      unfolding context_loop
      execute_with_retry_context s = context_loop (rounds cfg.max_attempts) 1 s none
