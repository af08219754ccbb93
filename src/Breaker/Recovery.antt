-- ===== src/Breaker/Recovery.antt =====
-- How a half-open circuit breaker (internal/circuitbreaker/breaker.go) closes again, or does not.
use order_flow.Prelude.{
  ℕ, suc, ◌+◌, ◌≤◌, ◌<◌, ◌≡◌, refl, List, [], ◌∷◌, pos, max_int, arith, All, length, replicate, ap,
  ◌∙◌,
}
use order_flow.Breaker.{
  execute, check_and_update_state, record_result, CircuitBreaker, rejected, state_closed,
  state_half_open, execute,
}
use order_flow.Breaker.Requests.{Request, Succeeds, attempt, serve, serve_stuck}

abbrev counted : CircuitBreaker → ℕ → CircuitBreaker
counted cb k = record cb { request_count = pos k; success_count = pos k }

-- Both counts of a half-open breaker are `k`, its limit is `m` and its success threshold `n`.
pub record IsProbing (cb : CircuitBreaker) (k m n : ℕ) : Type 0 where
  pub half_open : cb.state ≡ state_half_open
  pub limit : cb.config.max_requests ≡ pos m
  pub threshold : cb.config.success_threshold ≡ pos n
  pub requests : cb.request_count ≡ pos k
  pub successes : cb.success_count ≡ pos k

module _ {W A E : Type 0} where
  attempt_counts :
      (r : Request W A E) (w : W) (cb : CircuitBreaker) (k m n : ℕ)
      → Succeeds r
      → IsProbing cb k m n
      → k < m
      → suc k < n
      → n ≤ max_int
      → (attempt r w cb).breaker ≡ counted cb (suc k)
  unfolding execute check_and_update_state record_result
  attempt_counts r w cb k m n ok p lt short fits = ground (arith, ok w)

  serve_counts :
      (rs : List (Request W A E)) (w : W) (cb : CircuitBreaker) (k m n : ℕ)
      → All Succeeds rs
      → IsProbing cb k m n
      → k + length rs ≤ m
      → k + length rs < n
      → n ≤ max_int
      → (serve rs w cb).breaker ≡ counted cb (k + length rs)
  unfolding serve
  serve_counts [] w cb k m n oks p le short fits = ground arith
  serve_counts (r ∷ rs) w cb k m n (ok, oks) p le short fits =
      rw (attempt_counts r w cb k m n ok p (omega arith) (omega arith) fits) (
        serve_counts rs (attempt r w cb).world (counted cb (suc k)) (suc k) m n oks
          (record {
            half_open = p.half_open;
            limit = p.limit;
            threshold = p.threshold;
            requests = refl;
            successes = refl;
          })
          (omega arith) (omega arith) fits
        ∙ ap (counted cb) (omega arith))

  attempt_recovers :
      (r : Request W A E) (w : W) (cb : CircuitBreaker) (k m n : ℕ)
      → Succeeds r
      → IsProbing cb k m n
      → k < m
      → suc k ≡ n
      → n ≤ max_int
      → (attempt r w cb).breaker ≡ record cb {
        state = state_closed;
        failure_count = pos 0;
        success_count = pos 0;
        request_count = pos 0;
      }
  unfolding execute check_and_update_state record_result
  attempt_recovers r w cb k m n ok p lt last fits = ground (arith, ok w)

  -- Recovery: where the success threshold is at most the half-open limit, a half-open breaker with
  -- zero counts that serves threshold - 1 successes and then one more is closed after it, with all
  -- its counters zero and all else as it was.
  pub serve_recovers :
      (rs : List (Request W A E)) (r : Request W A E) (w : W) (cb : CircuitBreaker) (m : ℕ)
      → All Succeeds rs
      → Succeeds r
      → IsProbing cb 0 m (suc (length rs))
      → suc (length rs) ≤ m
      → suc (length rs) ≤ max_int
      → let x = serve rs w cb in
        (attempt r x.world x.breaker).breaker ≡ record cb {
          state = state_closed;
          failure_count = pos 0;
          success_count = pos 0;
          request_count = pos 0;
        }
  serve_recovers rs r w cb m oks ok p le fits =
      rw (serve_counts rs w cb 0 m (suc (length rs)) oks p (omega arith) (omega arith) fits) (
        attempt_recovers r (serve rs w cb).world (counted cb (0 + length rs)) (length rs) m
          (suc (length rs)) ok
          (record {
            half_open = p.half_open;
            limit = p.limit;
            threshold = p.threshold;
            requests = ap pos (omega arith);
            successes = ap pos (omega arith);
          })
          (omega arith) refl fits)

  -- The limit without the recovery: where the success threshold is above the half-open limit `m`, a
  -- half-open breaker with zero counts that serves `m` successes rejects every request after them,
  -- whenever it comes and whatever its function: it never closes and never opens by itself.
  pub serve_never_recovers :
      (rs later : List (Request W A E)) (w : W) (cb : CircuitBreaker) (n : ℕ)
      → All Succeeds rs
      → IsProbing cb 0 (length rs) n
      → length rs < n
      → n ≤ max_int
      → let x = serve rs w cb in
        serve later x.world x.breaker ≡ record {
          breaker = x.breaker;
          world = x.world;
          replies = replicate (length later) (rejected state_half_open);
        }
  serve_never_recovers rs later w cb n oks p short fits =
      let e = serve_counts rs w cb 0 (length rs) n oks p (omega arith) (omega arith) fits in
      serve_stuck later (serve rs w cb).world (serve rs w cb).breaker (rw e p.half_open)
        (rw e (ground arith))
