-- ===== src/Retry/Delays.antt =====
-- The delays between the attempts (calculateDelay of internal/retry/retry.go).
use order_flow.Prelude.{
  ℕ, zero, suc, ◌≡◌, sym, ◌∙◌, subst, true, false, ◌≤ℤ◌, arith, inl, inr, Bool-cases, Option, none,
  All,
}
use order_flow.Floats.{Floats}
use order_flow.Config.{RetryConfig}
use order_flow.Errors.{GoError}
use order_flow.Retry.{calculate_delay, uncapped, retry_loop, execute_with_retry, rounds}

-- What the cap relies on. `InRange` are the floats whose value, its fraction dropped, is an int64: only
-- for them does Go define the conversion to an integer. Of two such floats, one that is not above the
-- other is not above it either after the conversion.
pub record FloatLaws (fl : Floats) : Type 1 where
  pub InRange : fl.Float → Type 0
  pub to_int_le :
      (a b : fl.Float) → InRange a → InRange b → fl.lt b a ≡ false → fl.to_int a ≤ℤ fl.to_int b

module _ (fl : Floats) (laws : FloatLaws fl) (cfg : RetryConfig fl.Float) where
  open fl use {Float, of_int, to_int, lt}

  capped :
      (attempt : ℕ)
      → lt (of_int cfg.max_delay) (uncapped fl cfg attempt) ≡ true
      → calculate_delay fl cfg attempt ≡ to_int (of_int cfg.max_delay)
  unfolding calculate_delay
  capped attempt h = ground arith

  not_capped :
      (attempt : ℕ)
      → lt (of_int cfg.max_delay) (uncapped fl cfg attempt) ≡ false
      → calculate_delay fl cfg attempt ≡ to_int (uncapped fl cfg attempt)
  unfolding calculate_delay
  not_capped attempt h = ground arith

  -- The delay before the cap is above the maximum, or one that Go converts.
  abbrev pub CapsOverflow : ℕ → Type 0
  CapsOverflow attempt =
      lt (of_int cfg.max_delay) (uncapped fl cfg attempt) ≡ false
      → laws.InRange (uncapped fl cfg attempt)

  calculate_delay-le :
      (attempt : ℕ)
      → to_int (of_int cfg.max_delay) ≡ cfg.max_delay
      → laws.InRange (of_int cfg.max_delay)
      → CapsOverflow attempt
      → calculate_delay fl cfg attempt ≤ℤ cfg.max_delay
  calculate_delay-le attempt exact max_fits caps =
      elim (Bool-cases (lt (of_int cfg.max_delay) (uncapped fl cfg attempt))) [
        | inl h ↦ subst (λ d. d ≤ℤ cfg.max_delay) (sym (capped attempt h ∙ exact)) (omega arith)
        | inr h ↦
            subst (λ d. d ≤ℤ cfg.max_delay) (sym (not_capped attempt h))
              (subst (λ d. to_int (uncapped fl cfg attempt) ≤ℤ d) exact
                (laws.to_int_le (uncapped fl cfg attempt) (of_int cfg.max_delay) (caps h) max_fits
                  h))
      ]

  module _ {S : Type 0} (op : S → Option GoError × S) where
    retry_loop-slept :
        (left attempt : ℕ) (s : S) (last : Option GoError)
        → to_int (of_int cfg.max_delay) ≡ cfg.max_delay
        → laws.InRange (of_int cfg.max_delay)
        → ((n : ℕ) → CapsOverflow n)
        → All (λ d. d ≤ℤ cfg.max_delay) (retry_loop fl cfg op left attempt s last).slept
    unfolding retry_loop
    retry_loop-slept zero attempt s last exact max_fits caps = tt
    retry_loop-slept (suc left) attempt s last exact max_fits caps = ground (
      arith,
      calculate_delay-le attempt exact max_fits (caps attempt),
      retry_loop-slept left (suc attempt) (op s).1 (op s).0 exact max_fits caps,
    )

    -- Whatever the operation does, no delay that is slept is above the maximum, as long as the maximum is
    -- exact as a float, and each delay before its cap is above the maximum or has a value in the range
    -- of int64.
    pub execute_with_retry-slept :
        (s : S)
        → to_int (of_int cfg.max_delay) ≡ cfg.max_delay
        → laws.InRange (of_int cfg.max_delay)
        → ((n : ℕ) → CapsOverflow n)
        → All (λ d. d ≤ℤ cfg.max_delay) (execute_with_retry fl cfg op s).slept
    unfolding execute_with_retry
    execute_with_retry-slept s exact max_fits caps =
        retry_loop-slept (rounds cfg.max_attempts) 1 s none exact max_fits caps
