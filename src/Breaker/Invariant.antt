-- ===== src/Breaker/Invariant.antt =====
-- What holds of a circuit breaker (internal/circuitbreaker/breaker.go) whatever the interleaving of
-- its critical sections.
use order_flow.Prelude.{◌≡◌, Bool, List, [], ◌∷◌, ◌++◌, pos, ◌≤ℤ◌, ◌<ℤ◌, max_int, Time, arith}
use order_flow.Breaker.{
  Config, CircuitBreaker, Change, Readings, state_closed, state_half_open, new,
  check_and_update_state, record_result, reset,
}

-- The critical sections of the breaker: those of `Execute` are two, so that others may come between.
pub data Op : Type 0 where
  check : Time → Op
  record_outcome : Bool → Readings → Op
  reset_all : Op

unfoldable pub step : CircuitBreaker → Op → CircuitBreaker × List Change
step cb (check now) = let c = check_and_update_state now cb in (c.breaker, c.calls)
step cb (record_outcome success t) = record_result success t cb
step cb reset_all = reset cb

-- The breaker after the operations, and all calls of its callback in order.
unfoldable pub run : CircuitBreaker → List Op → CircuitBreaker × List Change
run cb [] = (cb, [])
run cb (op ∷ ops) =
    let (cb', calls) = step cb op in let (cb'', rest) = run cb' ops in (cb'', calls ++ rest)

-- The thresholds are positive `int` values, and a counter that its state reads is in range and
-- below its threshold.
pub record IsValid (cb : CircuitBreaker) : Type 0 where
  pub failure_positive : pos 0 <ℤ cb.config.failure_threshold
  pub failure_fits : cb.config.failure_threshold ≤ℤ pos max_int
  pub success_positive : pos 0 <ℤ cb.config.success_threshold
  pub success_fits : cb.config.success_threshold ≤ℤ pos max_int
  pub requests_positive : pos 0 <ℤ cb.config.max_requests
  pub timeout_positive : pos 0 <ℤ cb.config.timeout
  pub failures_nonneg : cb.state ≡ state_closed → pos 0 ≤ℤ cb.failure_count
  pub failures_below : cb.state ≡ state_closed → cb.failure_count <ℤ cb.config.failure_threshold
  pub successes_nonneg : cb.state ≡ state_half_open → pos 0 ≤ℤ cb.success_count
  pub successes_below : cb.state ≡ state_half_open → cb.success_count <ℤ cb.config.success_threshold

-- The values of a configuration are 64-bit.
pub record Fits (config : Config) : Type 0 where
  pub failure_fits : config.failure_threshold ≤ℤ pos max_int
  pub success_fits : config.success_threshold ≤ℤ pos max_int

pub new-IsValid : (config : Config) → Fits config → IsValid (new config)
unfolding new
new-IsValid config h = ground arith

check-IsValid :
    (now : Time) (cb : CircuitBreaker)
    → IsValid cb
    → IsValid (check_and_update_state now cb).breaker
unfolding check_and_update_state
check-IsValid now cb h = ground arith

record_result-IsValid :
    (success : Bool) (t : Readings) (cb : CircuitBreaker)
    → IsValid cb
    → IsValid (record_result success t cb).0
unfolding record_result
record_result-IsValid success t cb h = ground arith

reset-IsValid : (cb : CircuitBreaker) → IsValid cb → IsValid (reset cb).0
unfolding reset
reset-IsValid cb h = ground arith

step-IsValid : (cb : CircuitBreaker) (op : Op) → IsValid cb → IsValid (step cb op).0
unfolding step
step-IsValid cb (check now) h = check-IsValid now cb h
step-IsValid cb (record_outcome success t) h = record_result-IsValid success t cb h
step-IsValid cb reset_all h = reset-IsValid cb h

run_keeps : (cb : CircuitBreaker) (ops : List Op) → IsValid cb → IsValid (run cb ops).0
unfolding run
run_keeps cb [] h = h
run_keeps cb (op ∷ ops) h = run_keeps (step cb op).0 ops (step-IsValid cb op h)

-- From a new breaker whose configured thresholds are 64-bit, whatever sequence of checks, recorded
-- results and resets follows, in any interleaving of callers: the thresholds, the limit and the
-- timeout are positive; in the closed state the failure count is in 0 .. threshold - 1, and in the
-- half-open state the success count is, so neither of the counters that decide ever overflows.
pub run-IsValid : (config : Config) (ops : List Op) → Fits config → IsValid (run (new config) ops).0
run-IsValid config ops h = run_keeps (new config) ops (new-IsValid config h)
