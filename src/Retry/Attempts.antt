-- ===== src/Retry/Attempts.antt =====
-- The attempts of ExecuteWithRetry (internal/retry/retry.go), whatever the operation does.
use order_flow.Prelude.{
  ℕ, zero, suc, ◌+◌, ◌≤◌, ◌<◌, ◌≡◌, refl, ap, Option, none, some, List, [], ◌∷◌, ℤ, pos, negsuc,
  ◌≤ℤ◌, ◌∙◌, Duration, arith,
}
use order_flow.Errors.{GoError}
use order_flow.Floats.{Floats}
use order_flow.Config.{RetryConfig}
use order_flow.Retry.{
  exhausted, calculate_delay, retry_loop, execute_with_retry, slept_first, rounds,
}

-- The world after the first runs of an operation, and the error of the run after them.
module _ {S : Type 0} (op : S → Option GoError × S) where
  unfoldable pub world_after : ℕ → S → S
  world_after zero s = s
  world_after (suc k) s = world_after k (op s).1

  abbrev pub error_at : ℕ → S → Option GoError
  error_at k s = (op (world_after k s)).0

  -- The first runs of the operation fail.
  abbrev pub AllFail : ℕ → S → Type 0
  AllFail zero s = Unit
  AllFail (suc k) s = ((e : GoError) × ((op s).0 ≡ some e)) × AllFail k (op s).1

rounds_none : (m : ℤ) → m ≤ℤ pos 0 → rounds m ≡ 0
rounds_none (pos n) le = omega arith
rounds_none (negsuc n) le = refl

module _ (fl : Floats) where
  open fl use {Float}

  -- The delays after so many failed attempts from an attempt on.
  unfoldable pub delays : RetryConfig Float → ℕ → ℕ → List Duration
  delays cfg attempt zero = []
  delays cfg attempt (suc k) = calculate_delay fl cfg attempt ∷ delays cfg (suc attempt) k

  module _ {S : Type 0} (cfg : RetryConfig Float) (op : S → Option GoError × S) where
    -- A failed attempt that is not the last.
    retry_loop_again :
        (left attempt n : ℕ) (s : S) (last : Option GoError) (e : GoError)
        → cfg.max_attempts ≡ pos n
        → attempt < n
        → (op s).0 ≡ some e
        → retry_loop fl cfg op (suc left) attempt s last
          ≡ slept_first
              (calculate_delay fl cfg attempt)
              (retry_loop fl cfg op left (suc attempt) (op s).1 (some e))
    unfolding retry_loop
    retry_loop_again left attempt n s last e eq lt h = ground arith

    -- A successful attempt.
    retry_loop_done :
        (left attempt : ℕ) (s : S) (last : Option GoError)
        → (op s).0 ≡ none
        → retry_loop fl cfg op (suc left) attempt s last
          ≡ record { error = none; world = (op s).1; slept = [] }
    unfolding retry_loop
    retry_loop_done left attempt s last h = ground arith

    -- A failure of the last attempt.
    retry_loop_last :
        (left n : ℕ) (s : S) (last : Option GoError) (e : GoError)
        → cfg.max_attempts ≡ pos n
        → (op s).0 ≡ some e
        → retry_loop fl cfg op (suc left) n s last
          ≡ record { error = some (exhausted cfg.max_attempts e); world = (op s).1; slept = [] }
    unfolding retry_loop
    retry_loop_last left n s last e eq h = ground arith

    retry_loop-success :
        (k left attempt n : ℕ) (s : S) (last : Option GoError)
        → cfg.max_attempts ≡ pos n
        → attempt + k ≤ n
        → k < left
        → AllFail op k s
        → error_at op k s ≡ none
        → retry_loop fl cfg op left attempt s last
          ≡ record { error = none; world = world_after op (suc k) s; slept = delays cfg attempt k }
    unfolding world_after delays
    retry_loop-success k zero attempt n s last eq le lt fails ok = ground arith
    retry_loop-success zero (suc left) attempt n s last eq le lt fails ok =
        retry_loop_done left attempt s last ok
    retry_loop-success (suc k) (suc left) attempt n s last eq le lt ((e, h), fails) ok =
        retry_loop_again left attempt n s last e eq (omega arith) h
        ∙ ap (slept_first (calculate_delay fl cfg attempt)) (
            retry_loop-success k left (suc attempt) n (op s).1 (some e) eq (omega arith)
              (omega arith) fails ok)

    retry_loop-exhausted :
        (k left attempt : ℕ) (s : S) (last : Option GoError) (e : GoError)
        → cfg.max_attempts ≡ pos (attempt + k)
        → k < left
        → AllFail op k s
        → error_at op k s ≡ some e
        → retry_loop fl cfg op left attempt s last ≡ record {
          error = some (exhausted cfg.max_attempts e);
          world = world_after op (suc k) s;
          slept = delays cfg attempt k;
        }
    unfolding world_after delays
    retry_loop-exhausted k zero attempt s last e eq lt fails err = ground arith
    retry_loop-exhausted zero (suc left) attempt s last e eq lt fails err =
        retry_loop_last left attempt s last e (eq ∙ ap pos (omega arith)) err
    retry_loop-exhausted (suc k) (suc left) attempt s last e eq lt ((c, h), fails) err =
        retry_loop_again left attempt (attempt + suc k) s last c eq (omega arith) h
        ∙ ap (slept_first (calculate_delay fl cfg attempt)) (
            retry_loop-exhausted k left (suc attempt) (op s).1 (some c) e
              (eq ∙ ap pos (omega arith)) (omega arith) fails err)

    -- An operation that fails so many times and then succeeds, within the maximum of attempts, succeeds:
    -- no error is returned, the operation has run once more than it failed, and the delays of the failed
    -- attempts were slept in their order.
    pub execute_with_retry-success :
        (k n : ℕ) (s : S)
        → cfg.max_attempts ≡ pos n
        → k < n
        → AllFail op k s
        → error_at op k s ≡ none
        → execute_with_retry fl cfg op s
          ≡ record { error = none; world = world_after op (suc k) s; slept = delays cfg 1 k }
    unfolding execute_with_retry
    execute_with_retry-success k n s eq lt fails ok =
        ap (λ m. retry_loop fl cfg op (rounds m) 1 s none) eq
        ∙ retry_loop-success k n 1 n s none eq (omega arith) lt fails ok

    -- An operation that fails in each attempt, for a positive maximum of attempts, runs exactly so many
    -- times; the error that is returned names the number and wraps the last failure, and no delay is
    -- slept after the last attempt.
    pub execute_with_retry-exhausted :
        (k : ℕ) (s : S) (e : GoError)
        → cfg.max_attempts ≡ pos (suc k)
        → AllFail op k s
        → error_at op k s ≡ some e
        → execute_with_retry fl cfg op s ≡ record {
          error = some (exhausted cfg.max_attempts e);
          world = world_after op (suc k) s;
          slept = delays cfg 1 k;
        }
    unfolding execute_with_retry
    execute_with_retry-exhausted k s e eq fails err =
        ap (λ m. retry_loop fl cfg op (rounds m) 1 s none) eq
        ∙ retry_loop-exhausted k (suc k) 1 s none e (eq ∙ ap pos (omega arith)) (omega arith) fails
            err

    -- With a maximum of attempts that is not positive the operation never runs, nothing is slept, and no
    -- error is returned.
    execute_with_retry-none :
        (s : S)
        → cfg.max_attempts ≤ℤ pos 0
        → execute_with_retry fl cfg op s ≡ record { error = none; world = s; slept = [] }
    unfolding execute_with_retry retry_loop
    execute_with_retry-none s le =
        ap (λ r. retry_loop fl cfg op r 1 s none) (rounds_none cfg.max_attempts le)
