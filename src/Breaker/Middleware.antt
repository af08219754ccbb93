-- ===== src/Breaker/Middleware.antt =====
-- The HTTP middleware of internal/circuitbreaker/middleware.go. The next handler is a function from
-- the world to what it writes and the world after it.
use order_flow.Prelude.{
  ℕ, ◌≡◌, false, Option, none, some, List, [], ◌∷◌, ◌++◌, String, arith, leb, ltb, ◌⊎◌,
  if◌then◌else◌, Time,
}
use order_flow.Http.{
  Response, set_header, write_header, write, http_error, status_internal_server_error,
  status_service_unavailable,
}
use order_flow.Breaker.{
  Config, CircuitBreaker, Change, Readings, Reply, rejected, completed, state_closed, state_open,
  state_half_open, new, execute, check_and_update_state, with_state_change_callback, reset, Stats,
  get_stats,
}

-- `HTTPMiddleware`: the breaker, and what `onOpen` writes. The logger is left out.
pub record HttpMiddleware : Type 0 where
  pub breaker : CircuitBreaker
  pub on_open : Response

-- `DefaultOnOpen`
unfoldable pub default_on_open : Response
default_on_open =
    set_header "Content-Type" "application/json"
    ∷ write_header status_service_unavailable
    ∷ write
        "{\"error\": \"Service temporarily unavailable\", \"message\": \"Circuit breaker is open\"}"
    ∷ []

-- `CustomOnOpen`; the body is written as the parts that are joined.
unfoldable pub custom_on_open : String → ℕ → Response
custom_on_open message status_code =
    set_header "Content-Type" "application/json"
    ∷ write_header status_code
    ∷ write "{\"error\": \"Service unavailable\", \"message\": \""
    ∷ write message
    ∷ write "\"}"
    ∷ []

unfoldable pub new_http_middleware : Config → HttpMiddleware
new_http_middleware config = record { breaker = new config; on_open = default_on_open }

unfoldable pub with_on_open : Response → HttpMiddleware → HttpMiddleware
with_on_open on_open m = record m { on_open = on_open }

-- The `statusCode` of the `responseRecorder`, which only `WriteHeader` sets: the last one counts.
unfoldable pub recorded_status : ℕ → Response → ℕ
recorded_status code [] = code
recorded_status code (set_header k v ∷ es) = recorded_status code es
recorded_status code (write_header c ∷ es) = recorded_status c es
recorded_status code (write body ∷ es) = recorded_status code es

-- `HTTPError`, by its status code.
pub record HttpError : Type 0 where
  pub status_code : ℕ

pub record Exchange (W : Type 0) : Type 0 where
  pub middleware : HttpMiddleware
  pub world : W
  pub response : Response
  pub calls : List Change

-- What the middleware writes after the breaker's reply: nothing where the call went well, `onOpen`
-- where the breaker is open, and a server error for every other error.
pub answer : HttpMiddleware → Reply (Unit {0}) HttpError → Response
answer m (rejected state_open) = m.on_open
answer m (rejected state_closed) = http_error "Internal Server Error" 500
answer m (rejected state_half_open) = http_error "Internal Server Error" 500
answer m (completed _ none) = []
answer m (completed _ (some e)) = http_error "Internal Server Error" 500

module _ {W : Type 0} where
  -- The function that the breaker runs: statuses from 500 up are failures.
  pub guarded : (W → Response × W) → Response × W → Unit {0} × Option HttpError × (Response × W)
  guarded next (sent, w) =
      let (es, w') = next w in
      let code = recorded_status 200 es in
      (
        tt,
        if leb status_internal_server_error code
            then some (record { status_code = code })
            else none,
        (sent ++ es, w'),
      )

  unfoldable pub handle : Time → Readings → (W → Response × W) → W → HttpMiddleware → Exchange W
  unfolding guarded answer execute
  handle now t next w m =
      let x = execute now t (guarded next) ([], w) m.breaker in
      record {
        middleware = record m { breaker = x.breaker };
        world = x.world.1;
        response = x.world.0 ++ answer m x.reply;
        calls = x.calls;
      }

-- What the middleware adds to a handler's output.
pub after_error : (es : Response) → Response
after_error es =
    if ltb (recorded_status 200 es) 500 then [] else http_error "Internal Server Error" 500

module _ {W : Type 0} (now : Time) (t : Readings) (next : W → Response × W) (w : W) where
  -- Where the breaker does not let the request through: the next handler does not run, the breaker
  -- and the world are as before, and the response is `onOpen`'s in the open state and the server
  -- error 500 in the half-open state.
  pub handle_rejected :
      (m : HttpMiddleware)
      → (check_and_update_state now m.breaker).allowed ≡ false
      → ((handle now t next w m).world ≡ w)
        × ((handle now t next w m).middleware ≡ m)
        × (((m.breaker.state ≡ state_open) × ((handle now t next w m).response ≡ m.on_open))
            ⊎ ((m.breaker.state ≡ state_half_open)
                × ((handle now t next w m).response ≡ http_error "Internal Server Error" 500)))
  unfolding handle execute check_and_update_state
  handle_rejected m h = ground arith

-- `GetStats` and `Reset` of the middleware
unfoldable pub middleware_stats : HttpMiddleware → Stats
middleware_stats m = get_stats m.breaker

unfoldable pub middleware_reset : HttpMiddleware → HttpMiddleware × List Change
unfolding reset
middleware_reset m = let (cb, calls) = reset m.breaker in (record m { breaker = cb }, calls)

unfoldable pub middleware_with_callback : HttpMiddleware → HttpMiddleware
middleware_with_callback m = record m { breaker = with_state_change_callback m.breaker }
