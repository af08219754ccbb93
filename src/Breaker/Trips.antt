-- ===== src/Breaker/Trips.antt =====
-- How failures open a closed circuit breaker (internal/circuitbreaker/breaker.go).
use order_flow.Prelude.{
  ℕ, suc, ◌+◌, ◌≤◌, ◌<◌, ◌≡◌, List, [], ◌∷◌, pos, max_int, add_time, arith, All, length, ap, ◌∙◌,
}
use order_flow.Breaker.{
  execute, check_and_update_state, record_result, CircuitBreaker, state_closed, state_open, execute,
}
use order_flow.Breaker.Requests.{Request, Fails, attempt, serve}

-- A closed breaker with `k` failures in a row and the failure threshold `n`.
pub record IsCounting (cb : CircuitBreaker) (k n : ℕ) : Type 0 where
  pub closed : cb.state ≡ state_closed
  pub threshold : cb.config.failure_threshold ≡ pos n
  pub failures : cb.failure_count ≡ pos k

module _ {W A E : Type 0} where
  attempt-Fails :
      (r : Request W A E) (w : W) (cb : CircuitBreaker) (k n : ℕ)
      → Fails r
      → IsCounting cb k n
      → suc k < n
      → n ≤ max_int
      → IsCounting (attempt r w cb).breaker (suc k) n
        × ((attempt r w cb).breaker.config ≡ cb.config)
  unfolding execute check_and_update_state record_result
  attempt-Fails r w cb k n bad c lt fits = ground (arith, bad w)

  serve-Fails :
      (rs : List (Request W A E)) (w : W) (cb : CircuitBreaker) (k n : ℕ)
      → All Fails rs
      → IsCounting cb k n
      → k + length rs < n
      → n ≤ max_int
      → IsCounting (serve rs w cb).breaker (k + length rs) n
        × ((serve rs w cb).breaker.config ≡ cb.config)
  unfolding serve
  serve-Fails [] w cb k n bads c lt fits = ground arith
  serve-Fails (r ∷ rs) w cb k n (bad, bads) c lt fits =
      let (c', same) = attempt-Fails r w cb k n bad c (omega arith) fits in
      let x = attempt r w cb in
      ground (arith, serve-Fails rs x.world x.breaker (suc k) n bads c' (omega arith) fits)

  attempt_trips :
      (r : Request W A E) (w : W) (cb : CircuitBreaker) (k n : ℕ)
      → Fails r
      → IsCounting cb k n
      → suc k ≡ n
      → n ≤ max_int
      → ((attempt r w cb).breaker.state ≡ state_open)
        × ((attempt r w cb).breaker.next_attempt ≡ add_time r.readings.next_now cb.config.timeout)
  unfolding execute check_and_update_state record_result
  attempt_trips r w cb k n bad c last fits = ground (arith, bad w)

  -- A closed breaker with no failure counted stays closed over threshold - 1 failing calls, and the
  -- next failing call opens it, with the next attempt the timeout after the clock's reading.
  pub serve_trips :
      (rs : List (Request W A E)) (r : Request W A E) (w : W) (cb : CircuitBreaker)
      → All Fails rs
      → Fails r
      → IsCounting cb 0 (suc (length rs))
      → suc (length rs) ≤ max_int
      → let x = serve rs w cb in
        let y = (attempt r x.world x.breaker).breaker in
        (x.breaker.state ≡ state_closed)
        × (y.state ≡ state_open)
        × (y.next_attempt ≡ add_time r.readings.next_now cb.config.timeout)
  serve_trips rs r w cb bads bad c fits =
      let n = suc (length rs) in
      let x = serve rs w cb in
      let (c', same) = serve-Fails rs w cb 0 n bads c (omega arith) fits in
      let (open', next) =
        attempt_trips r x.world x.breaker (0 + length rs) n bad c' (omega arith) fits in
      (c'.closed, open', next ∙ ap (λ cfg. add_time r.readings.next_now cfg.timeout) same)
