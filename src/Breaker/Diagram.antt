-- ===== src/Breaker/Diagram.antt =====
-- The state diagram of the circuit breaker (internal/circuitbreaker/breaker.go), and what the
-- state-change callback sees of it.
use order_flow.Prelude.{◌≡◌, refl, Bool, true, false, List, [], ◌∷◌, ◌++◌, arith, Time}
use order_flow.Breaker.{
  State, CircuitBreaker, Change, Readings, state_closed, state_open, state_half_open,
  check_and_update_state, record_result, reset,
}
use order_flow.Breaker.Invariant.{Op, check, record_outcome, reset_all, step, run}

-- The changes of state that an operation may make: a failure trips the closed breaker, a check lets
-- the open one probe, a success lets it recover from half-open and a failure makes it relapse; a
-- Reset goes to closed from any state, also from closed.
pub data Edge : Op → Change → Type 0 where
  trip : {t : Readings} → Edge (record_outcome false t) (state_closed, state_open)
  probe : {now : Time} → Edge (check now) (state_open, state_half_open)
  recover : {t : Readings} → Edge (record_outcome true t) (state_half_open, state_closed)
  relapse : {t : Readings} → Edge (record_outcome false t) (state_half_open, state_open)
  cleared : (s : State) → Edge reset_all (s, state_closed)

-- One operation from `s` to `t` with the calls that the callback gets: none where a check or a record
-- leaves the state as it is, and otherwise the one change that has been made.
pub data StepCalls : Op → State → List Change → State → Type 0 where
  silent_check : {now : Time} {s : State} → StepCalls (check now) s [] s
  silent_record : {b : Bool} {t : Readings} {s : State} → StepCalls (record_outcome b t) s [] s
  reported : {op : Op} {s t : State} → Edge op (s, t) → StepCalls op s ((s, t) ∷ []) t

-- `Chain ops s l t`: the operations lead from `s` to `t`, with the calls `l`.
pub data Chain : List Op → State → List Change → State → Type 0 where
  done : {s : State} → Chain [] s [] s
  link :
      {op : Op} {ops : List Op} {s t u : State} {l m : List Change}
      → StepCalls op s l t
      → Chain ops t m u
      → Chain (op ∷ ops) s (l ++ m) u

check-StepCalls :
    (now : Time) (cb : CircuitBreaker)
    → cb.has_callback ≡ true
    → let c = check_and_update_state now cb in
      StepCalls (check now) cb.state c.calls c.breaker.state × (c.breaker.has_callback ≡ true)
unfolding check_and_update_state
check-StepCalls now cb h = grind (arith, silent_check, reported, probe)

record-StepCalls :
    (success : Bool) (t : Readings) (cb : CircuitBreaker)
    → cb.has_callback ≡ true
    → let r = record_result success t cb in
      StepCalls (record_outcome success t) cb.state r.1 r.0.state × (r.0.has_callback ≡ true)
unfolding record_result
record-StepCalls true t cb h = grind (arith, silent_record, reported, recover)
record-StepCalls false t cb h = grind (arith, silent_record, reported, trip, relapse)

step-StepCalls :
    (cb : CircuitBreaker) (op : Op)
    → cb.has_callback ≡ true
    → StepCalls op cb.state (step cb op).1 (step cb op).0.state
      × ((step cb op).0.has_callback ≡ true)
unfolding step reset
step-StepCalls cb (check now) h = check-StepCalls now cb h
step-StepCalls cb (record_outcome success t) h = record-StepCalls success t cb h
step-StepCalls cb reset_all h = rw h (reported (cleared cb.state), refl)

-- With a callback set, whatever the operations: the callback is called once for each change of state,
-- in order, with the state before and the state after it, and each change is one that its operation
-- may make: a failure trips or relapses, a check probes, a success recovers. No other call is made,
-- but that a Reset is reported always, also of a breaker that is closed.
pub run-Chain :
    (cb : CircuitBreaker) (ops : List Op)
    → cb.has_callback ≡ true
    → Chain ops cb.state (run cb ops).1 (run cb ops).0.state
unfolding run
run-Chain cb [] h = done
run-Chain cb (op ∷ ops) h =
    let (c, h') = step-StepCalls cb op h in link c (run-Chain (step cb op).0 ops h')
