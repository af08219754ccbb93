-- ===== src/Lifecycle/Tests.antt =====
-- Runs of the lifecycle manager (internal/lifecycle/lifecycle.go), and its theorems at concrete inputs.
use mathlib.Core.List.{Perm}
use order_flow.Prelude.{
  ◌≡◌, refl, false, ℕ, ◌≤◌, ◌+◌, ◌*◌, Option, none, some, List, [], ◌∷◌, ◌++◌, map, length, String,
}
use order_flow.Errors.{GoError, plain, str}
use order_flow.Lifecycle.{
  Manager, start, stop, Run, Event, end_at, close, receive, first, new, register, begin, pick,
  end_one, close_channel, receive_one, step, run, ServiceWrapper, start_wrapper, stop_wrapper,
}
use order_flow.Lifecycle.Sound.{errors_of}
use order_flow.Lifecycle.Outcome.{run-returned}
use order_flow.Lifecycle.Termination.{run-terminates}

program : Unit {0}
unfolding new register begin pick end_one close_channel receive_one step run start_wrapper
    stop_wrapper
program = tt

abbrev no_port : GoError
no_port = plain (str "address already in use" ∷ [])

abbrev manager : Manager String
manager = record { services = "http" ∷ "kafka" ∷ "cache" ∷ [] }

registered : register "cache" (register "kafka" (register "http" new)) ≡ manager
unfolding program
registered = refl

abbrev answer_of : Option (Run String) → Option (Option GoError)
answer_of none = none
answer_of (some r) = r.returned

-- Start returns while a service is still starting, and "kafka" stays started.
early : List Event
early = end_at 1 none ∷ end_at 0 (some no_port) ∷ receive ∷ []

abbrev after_early : Run String
after_early = record {
  running = "cache" ∷ [];
  ended = ("kafka", none) ∷ ("http", some no_port) ∷ [];
  channel = [];
  closed = false;
  errors = no_port ∷ [];
  returned = some (some no_port);
}

early-run : run start early (begin manager) ≡ some after_early
unfolding program early
early-run = refl

-- Stop collects, closes, and returns the first error.
all_stop : List Event
all_stop = end_at 2 none ∷ end_at 0 (some no_port) ∷ receive ∷ end_at 0 none ∷ close ∷ receive ∷ []

stopped : answer_of (run stop all_stop (begin manager)) ≡ some (some no_port)
unfolding program all_stop
stopped = refl

run-returned_example :
    Perm manager.services (map (λ x. x.0) after_early.ended ++ after_early.running)
    × ((a : Option GoError)
        → after_early.returned ≡ some a
        → (a ≡ first (errors_of after_early.ended))
          × (start ≡ stop → after_early.running ≡ [])
          × (a ≡ none → after_early.running ≡ []))
run-returned_example = run-returned start manager early after_early early-run

run-terminates_example :
    (length early ≤ length manager.services * 2 + 2)
    × (after_early.returned ≡ none
        → (e : Event) × (r' : Run String) × (step start e after_early ≡ some r'))
run-terminates_example = run-terminates start manager early after_early early-run

abbrev silent : ServiceWrapper ℕ (List String)
silent = record {
  name = "cache";
  start_fn = none;
  stop_fn = some (λ ctx st. (none, "stopped" ∷ st));
}

wrapped :
    (start_wrapper silent 0 [] ≡ (none, [])) × (stop_wrapper silent 0 [] ≡ (none, "stopped" ∷ []))
unfolding program
wrapped = (refl, refl)
