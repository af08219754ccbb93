-- ===== src/Retry/Tests.antt =====
-- Runs of the retry service (internal/retry/retry.go), and its theorems at concrete inputs.
use order_flow.Prelude.{
  ◌*◌, ℕ, zero, suc, ◌≡◌, refl, Option, none, some, [], ◌∷◌, ℤ, pos, ltb_ℤ, leb_ℤ, ◌≤ℤ◌, arith, All,
  ltb, if◌then◌else◌, false, max_int,
}
use order_flow.Errors.{GoError, plain, str}
use order_flow.Floats.{Floats}
use order_flow.Config.{RetryConfig}
use order_flow.Retry.{execute_with_retry, execute_with_retry_context}
use order_flow.Retry.Delays.{FloatLaws, execute_with_retry-slept}
use order_flow.Retry.Context.{execute_with_retry_context-done}

-- Whole numbers in the place of floats; a power is its base to the exponent 0 or 1.
abbrev power : ℤ → ℤ → ℤ
power x (pos zero) = pos 1
power x y = x

abbrev times : ℤ → ℤ → ℤ
times (pos a) (pos b) = pos (a * b)
times x y = x

abbrev whole : Floats
whole = record {
  Float = ℤ;
  of_int = λ n. n;
  to_int = λ x. x;
  add = λ x y. x;
  sub = λ x y. x;
  mul = times;
  div = λ x y. x;
  pow = power;
  lt = ltb_ℤ;
  le = leb_ℤ;
}

to_int_le-whole : (a b : ℤ) → ltb_ℤ b a ≡ false → a ≤ℤ b
to_int_le-whole a b h = ground arith

abbrev whole_laws : FloatLaws whole
whole_laws = record {
  InRange = λ x. x ≤ℤ pos max_int;
  to_int_le = λ a b p q h. to_int_le-whole a b h;
}

abbrev cfg : ℤ → RetryConfig ℤ
cfg n = record {
  max_attempts = n;
  initial_delay = pos 100;
  max_delay = pos 150;
  multiplier = pos 2;
}

abbrev failure : GoError
failure = plain (str "down" ∷ [])

-- It fails while the counter that it keeps is below a bound.
abbrev flaky : ℕ → ℕ → Option GoError × ℕ
flaky bound n = (if ltb n bound then some failure else none, suc n)

execute_with_retry-slept_example :
    All (λ d. d ≤ℤ pos 150) (execute_with_retry whole (cfg (pos 4)) (flaky 3) 0).slept
execute_with_retry-slept_example =
    execute_with_retry-slept whole whole_laws (cfg (pos 4)) (flaky 3) 0 refl (omega arith)
      (λ n h. ground arith)

execute_with_retry_context-done_example :
    execute_with_retry_context whole
      (cfg (pos 4))
      (flaky 3)
      (λ t. some failure)
      (λ d t. (none, t))
      0
    ≡ record { error = some failure; world = 0; slept = [] }
execute_with_retry_context-done_example =
    execute_with_retry_context-done whole (cfg (pos 4)) (flaky 3) (λ t. some failure)
      (λ d t. (none, t)) 0 failure (omega arith) refl
