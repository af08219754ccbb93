-- ===== src/Breaker/Requests.antt =====
-- Requests served one after another by a circuit breaker (`Execute` of
-- internal/circuitbreaker/breaker.go), and the two states that reject them.
use order_flow.Prelude.{
  ◌≤◌, ◌≡◌, refl, true, false, Option, List, [], ◌∷◌, ◌≤ℤ◌, Time, arith, All, length, replicate,
}
use order_flow.Breaker.{
  CircuitBreaker, Readings, Reply, Executed, rejected, state_open, state_half_open, is_nil, execute,
  check_and_update_state, record_result,
}

-- One call of `Execute`: its clock readings and its function.
pub record Request (W A E : Type 0) : Type 0 where
  pub now : Time
  pub readings : Readings
  pub fn : W → A × Option E × W

pub record Served (W A E : Type 0) : Type 0 where
  pub breaker : CircuitBreaker
  pub world : W
  pub replies : List (Reply A E)

module _ {W A E : Type 0} where
  abbrev pub Fails : Request W A E → Type 0
  Fails r = (w : W) → is_nil (r.fn w).1 ≡ false

  abbrev pub Succeeds : Request W A E → Type 0
  Succeeds r = (w : W) → is_nil (r.fn w).1 ≡ true

  abbrev pub attempt : Request W A E → W → CircuitBreaker → Executed W A E
  attempt r w cb = execute r.now r.readings r.fn w cb

  unfoldable pub serve : List (Request W A E) → W → CircuitBreaker → Served W A E
  serve [] w cb = record { breaker = cb; world = w; replies = [] }
  serve (r ∷ rs) w cb =
      let x = attempt r w cb in
      let rest = serve rs x.world x.breaker in record rest { replies = x.reply ∷ rest.replies }

  attempt_open :
      (r : Request W A E) (w : W) (cb : CircuitBreaker)
      → cb.state ≡ state_open
      → r.now ≤ cb.next_attempt
      → attempt r w cb ≡ record { breaker = cb; world = w; reply = rejected state_open; calls = [] }
  unfolding execute check_and_update_state record_result
  attempt_open r w cb s h = ground arith

  -- An open breaker rejects every request that comes no later than `nextAttempt`: no function is
  -- run, the breaker does not change, and each reply is the breaker's error that names the open state.
  serve_open :
      (rs : List (Request W A E)) (w : W) (cb : CircuitBreaker)
      → cb.state ≡ state_open
      → All (λ r. r.now ≤ cb.next_attempt) rs
      → serve rs w cb
        ≡ record { breaker = cb; world = w; replies = replicate (length rs) (rejected state_open) }
  unfolding serve
  serve_open [] w cb s h = refl
  serve_open (r ∷ rs) w cb s (h, hs) =
      rw (attempt_open r w cb s h) (rw (serve_open rs w cb s hs) refl)

  attempt_stuck :
      (r : Request W A E) (w : W) (cb : CircuitBreaker)
      → cb.state ≡ state_half_open
      → cb.config.max_requests ≤ℤ cb.request_count
      → attempt r w cb
        ≡ record { breaker = cb; world = w; reply = rejected state_half_open; calls = [] }
  unfolding execute check_and_update_state record_result
  attempt_stuck r w cb s h = ground arith

  pub serve_stuck :
      (rs : List (Request W A E)) (w : W) (cb : CircuitBreaker)
      → cb.state ≡ state_half_open
      → cb.config.max_requests ≤ℤ cb.request_count
      → serve rs w cb ≡ record {
        breaker = cb;
        world = w;
        replies = replicate (length rs) (rejected state_half_open);
      }
  unfolding serve
  serve_stuck [] w cb s h = refl
  serve_stuck (r ∷ rs) w cb s h = rw (attempt_stuck r w cb s h) (rw (serve_stuck rs w cb s h) refl)
