-- ===== src/Breaker.antt =====
-- The circuit breaker of internal/circuitbreaker/breaker.go. A method returns the new breaker, its
-- results and the calls of the state-change callback that it makes, in order.
pub mod Invariant
pub mod Diagram
pub mod Requests
pub mod Recovery
pub mod Trips
pub mod Middleware
mod Tests
use order_flow.Prelude.{
  ℕ, ◌≡◌, Bool, true, false, Option, none, some, List, [], ◌∷◌, ◌++◌, ℤ, pos, negsuc, leb_ℤ, ltb_ℤ,
  succ_int, if◌then◌else◌, Time, Duration, zero_time, add_time, after, second,
}

-- `State`; the values of the Go type beyond these three are never stored.
pub data State : Type 0 where
  state_closed state_open state_half_open : State

pub record Config : Type 0 where
  pub failure_threshold : ℤ
  pub success_threshold : ℤ
  pub timeout : Duration
  pub max_requests : ℤ

unfoldable pub default_config : Config
default_config = record {
  failure_threshold = pos 5;
  success_threshold = pos 3;
  timeout = pos 60000000000;
  max_requests = pos 3;
}

-- `has_callback` is `onStateChange != nil`.
pub record CircuitBreaker : Type 0 where
  pub config : Config
  pub state : State
  pub failure_count : ℤ
  pub success_count : ℤ
  pub request_count : ℤ
  pub last_fail_time : Time
  pub next_attempt : Time
  pub has_callback : Bool

-- A value that is not positive gives way to the default.
positive_or : ℤ → ℤ → ℤ
positive_or n d = if leb_ℤ n (pos 0) then d else n

unfoldable pub new : Config → CircuitBreaker
unfolding positive_or
new config = record {
  config = record {
    failure_threshold = positive_or config.failure_threshold (pos 5);
    success_threshold = positive_or config.success_threshold (pos 3);
    timeout = positive_or config.timeout (pos 60000000000);
    max_requests = positive_or config.max_requests (pos 3);
  };
  state = state_closed;
  failure_count = pos 0;
  success_count = pos 0;
  request_count = pos 0;
  last_fail_time = zero_time;
  next_attempt = zero_time;
  has_callback = false;
}

unfoldable pub with_state_change_callback : CircuitBreaker → CircuitBreaker
with_state_change_callback cb = record cb { has_callback = true }

-- A change of state as the callback sees it: from, to.
abbrev pub Change : Type 0
Change = State × State

abbrev pub notify : CircuitBreaker → State → State → List Change
notify cb from to = if cb.has_callback then (from, to) ∷ [] else []

-- What `checkAndUpdateState` returns: the breaker after it, its two results, the callback's calls.
pub record Checked : Type 0 where
  pub breaker : CircuitBreaker
  pub allowed : Bool
  pub state_changed : Bool
  pub calls : List Change

check_in : State → Time → CircuitBreaker → Checked
check_in state_closed now cb = record {
  breaker = cb;
  allowed = true;
  state_changed = false;
  calls = [];
}
check_in state_open now cb =
    if after now cb.next_attempt
    then record {
      breaker = record cb { state = state_half_open; request_count = pos 0; success_count = pos 0 };
      allowed = true;
      state_changed = true;
      calls = notify cb state_open state_half_open;
    }
    else record { breaker = cb; allowed = false; state_changed = false; calls = [] }
check_in state_half_open now cb = record {
  breaker = cb;
  allowed = ltb_ℤ cb.request_count cb.config.max_requests;
  state_changed = false;
  calls = [];
}

unfoldable pub check_and_update_state : Time → CircuitBreaker → Checked
unfolding check_in
check_and_update_state now cb = check_in cb.state now cb

unfoldable pub can_execute : Time → CircuitBreaker → CircuitBreaker × Bool
unfolding check_and_update_state
can_execute now cb = let c = check_and_update_state now cb in (c.breaker, c.allowed)

-- `recordResult` reads the clock twice where it opens the breaker: once for `lastFailTime` and
-- once for `nextAttempt`.
pub record Readings : Type 0 where
  pub fail_now : Time
  pub next_now : Time

opened : Readings → CircuitBreaker → CircuitBreaker
opened t cb = record cb {
  state = state_open;
  failure_count = succ_int cb.failure_count;
  last_fail_time = t.fail_now;
  next_attempt = add_time t.next_now cb.config.timeout;
}

record_in : State → Bool → Readings → CircuitBreaker → CircuitBreaker × List Change
unfolding opened
record_in state_closed true t cb = (record cb { failure_count = pos 0 }, [])
record_in state_closed false t cb =
    if leb_ℤ cb.config.failure_threshold (succ_int cb.failure_count)
    then (opened t cb, notify cb state_closed state_open)
    else (record cb { failure_count = succ_int cb.failure_count; last_fail_time = t.fail_now }, [])
record_in state_open success t cb = (cb, [])
record_in state_half_open true t cb =
    if leb_ℤ cb.config.success_threshold (succ_int cb.success_count)
    then (
      record cb {
        state = state_closed;
        failure_count = pos 0;
        success_count = pos 0;
        request_count = pos 0;
      },
      notify cb state_half_open state_closed,
    )
    else (
      record cb {
        request_count = succ_int cb.request_count;
        success_count = succ_int cb.success_count;
      },
      [],
    )
record_in state_half_open false t cb = (
  record (opened t cb) { request_count = succ_int cb.request_count },
  notify cb state_half_open state_open,
)

unfoldable pub record_result : Bool → Readings → CircuitBreaker → CircuitBreaker × List Change
unfolding record_in
record_result success t cb = record_in cb.state success t cb

unfoldable pub reset : CircuitBreaker → CircuitBreaker × List Change
reset cb = (
  record cb {
    state = state_closed;
    failure_count = pos 0;
    success_count = pos 0;
    request_count = pos 0;
    last_fail_time = zero_time;
    next_attempt = zero_time;
  },
  notify cb cb.state state_closed,
)

pub record Stats : Type 0 where
  pub state : State
  pub failure_count : ℤ
  pub success_count : ℤ
  pub request_count : ℤ
  pub last_fail_time : Time
  pub next_attempt : Time

unfoldable pub get_stats : CircuitBreaker → Stats
get_stats cb = record {
  state = cb.state;
  failure_count = cb.failure_count;
  success_count = cb.success_count;
  request_count = cb.request_count;
  last_fail_time = cb.last_fail_time;
  next_attempt = cb.next_attempt;
}

-- What `Execute` returns: the breaker's own error with the state that it names, or the function's
-- result and error as they are.
pub data Reply (A E : Type 0) : Type 0 where
  rejected : State → Reply A E
  completed : A → Option E → Reply A E

abbrev is_nil : {E : Type 0} → Option E → Bool
is_nil none = true
is_nil (some e) = false

-- `W` is what the function acts on, so that a run of it shows. One call, with nothing between its
-- two critical sections; interleaved calls are sequences of `check_and_update_state` and
-- `record_result`.
pub record Executed (W A E : Type 0) : Type 0 where
  pub breaker : CircuitBreaker
  pub world : W
  pub reply : Reply A E
  pub calls : List Change

module _ {W A E : Type 0} where
  complete : Checked → Readings → A × Option E × W → Executed W A E
  complete c t (result, err, w') =
      let r = record_result (is_nil err) t c.breaker in
      record { breaker = r.0; world = w'; reply = completed result err; calls = c.calls ++ r.1 }

  unfoldable pub execute :
      Time → Readings → (W → A × Option E × W) → W → CircuitBreaker → Executed W A E
  unfolding complete
  execute now t fn w cb =
      let c = check_and_update_state now cb in
      if c.allowed then complete c t (fn w) else record {
        breaker = c.breaker;
        world = w;
        reply = rejected c.breaker.state;
        calls = c.calls;
      }

-- `IsCircuitBreakerOpen`
unfoldable pub is_circuit_breaker_open : {A E : Type 0} → Reply A E → Bool
is_circuit_breaker_open (rejected state_open) = true
is_circuit_breaker_open (rejected state_closed) = false
is_circuit_breaker_open (rejected state_half_open) = false
is_circuit_breaker_open (completed a e) = false
