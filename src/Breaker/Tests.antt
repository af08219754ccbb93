-- ===== src/Breaker/Tests.antt =====
-- Runs of the circuit breaker (internal/circuitbreaker), and its theorems at concrete inputs.
use order_flow.Prelude.{
  ℕ, ◌+◌, ◌≡◌, refl, Bool, true, false, none, some, List, [], ◌∷◌, ◌⊎◌, pos, negsuc, arith,
  add_time, replicate,
}
use order_flow.Http.{Response, write_header, write, sent_status, http_error}
use order_flow.Breaker.{
  Config, CircuitBreaker, Readings, rejected, state_closed, state_open, state_half_open,
  default_config, new, execute, check_and_update_state, record_result,
}
use order_flow.Breaker.Invariant.{Op, check, record_outcome, step, run, IsValid, run-IsValid}
use order_flow.Breaker.Diagram.{Chain, run-Chain}
use order_flow.Breaker.Requests.{Request, attempt, serve}
use order_flow.Breaker.Recovery.{serve_recovers, serve_never_recovers}
use order_flow.Breaker.Trips.{serve_trips}
use order_flow.Breaker.Middleware.{HttpMiddleware, handle, recorded_status, handle_rejected}

program : Unit {0}
unfolding default_config new execute check_and_update_state record_result run step serve handle
    sent_status recorded_status
program = tt

abbrev ops : List Op
ops =
    record_outcome false (record { fail_now = 1; next_now = 2 })
    ∷ check 3
    ∷ record_outcome false (record { fail_now = 4; next_now = 5 })
    ∷ check 6
    ∷ check 200
    ∷ record_outcome true (record { fail_now = 7; next_now = 8 })
    ∷ []

abbrev small : Config
small = record {
  failure_threshold = pos 2;
  success_threshold = pos 2;
  timeout = pos 100;
  max_requests = pos 2;
}

abbrev watched : CircuitBreaker
watched = record {
  config = small;
  state = state_closed;
  failure_count = pos 0;
  success_count = pos 0;
  request_count = pos 0;
  last_fail_time = 0;
  next_attempt = 0;
  has_callback = true;
}

run_changes : (run watched ops).1 ≡ (state_closed, state_open) ∷ (state_open, state_half_open) ∷ []
unfolding program
run_changes = refl

-- Values that are not positive give way to the defaults.
new_defaults :
    (new (record {
      failure_threshold = pos 0;
      success_threshold = negsuc 4;
      timeout = pos 0;
      max_requests = negsuc 0;
    })).config
    ≡ default_config
unfolding program
new_defaults = refl

run-IsValid_example : IsValid (run (new small) ops).0
run-IsValid_example = run-IsValid small ops (omega arith)

run-Chain_example : Chain ops watched.state (run watched ops).1 (run watched ops).0.state
run-Chain_example = run-Chain watched ops refl

-- A function that adds one to the world, and fails or does not.
abbrev request : ℕ → Bool → Request ℕ ℕ ℕ
request now good = record {
  now = now;
  readings = record { fail_now = now + 1; next_now = now + 2 };
  fn = λ w. (w, (elim good [ true ↦ none | false ↦ some 7 ]), w + 1);
}

abbrev opened : CircuitBreaker
opened = record watched { state = state_open; next_attempt = 50 }

abbrev probing : CircuitBreaker
probing = record watched { state = state_half_open }

serve_recovers_example :
    let x = serve (request 10 true ∷ []) 0 probing in
    (attempt (request 11 true) x.world x.breaker).breaker ≡ record probing {
      state = state_closed;
      failure_count = pos 0;
      success_count = pos 0;
      request_count = pos 0;
    }
serve_recovers_example =
    serve_recovers (request 10 true ∷ []) (request 11 true) 0 probing 2 ((λ w. refl), tt)
      (λ w. refl)
      (record {
        half_open = refl;
        limit = refl;
        threshold = refl;
        requests = refl;
        successes = refl;
      })
      (omega arith) (omega arith)

-- The success threshold is above the limit of requests.
abbrev strict : CircuitBreaker
strict = record probing { config = record small { success_threshold = pos 3 } }

serve_never_recovers_example :
    let x = serve (request 10 true ∷ request 11 true ∷ []) 0 strict in
    serve (request 1000000 true ∷ []) x.world x.breaker ≡ record {
      breaker = x.breaker;
      world = x.world;
      replies = replicate 1 (rejected state_half_open);
    }
serve_never_recovers_example =
    serve_never_recovers (request 10 true ∷ request 11 true ∷ []) (request 1000000 true ∷ []) 0
      strict 3 ((λ w. refl), ((λ w. refl), tt))
      (record {
        half_open = refl;
        limit = refl;
        threshold = refl;
        requests = refl;
        successes = refl;
      })
      (omega arith) (omega arith)

serve_trips_example :
    let x = serve (request 10 false ∷ []) 0 watched in
    let y = (attempt (request 20 false) x.world x.breaker).breaker in
    (x.breaker.state ≡ state_closed)
    × (y.state ≡ state_open)
    × (y.next_attempt ≡ add_time 22 (pos 100))
serve_trips_example =
    serve_trips (request 10 false ∷ []) (request 20 false) 0 watched ((λ w. refl), tt) (λ w. refl)
      (record { closed = refl; threshold = refl; failures = refl }) (omega arith)

abbrev failing_handler : ℕ → Response × ℕ
failing_handler w = (write_header 503 ∷ write "busy" ∷ [], w + 1)

abbrev guard : CircuitBreaker → HttpMiddleware
guard cb = record { breaker = cb; on_open = [] }

abbrev clock : Readings
clock = record { fail_now = 6; next_now = 7 }

handle_rejected_example :
    let m = guard (record probing { request_count = pos 2 }) in
    let x = handle 5 clock failing_handler 0 m in
    (x.world ≡ 0)
    × (x.middleware ≡ m)
    × (((m.breaker.state ≡ state_open) × (x.response ≡ m.on_open))
        ⊎ ((m.breaker.state ≡ state_half_open)
            × (x.response ≡ http_error "Internal Server Error" 500)))
unfolding check_and_update_state
handle_rejected_example =
    handle_rejected 5 clock failing_handler 0 (guard (record probing { request_count = pos 2 }))
      refl
