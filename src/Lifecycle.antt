-- ===== src/Lifecycle.antt =====
-- The lifecycle manager of internal/lifecycle/lifecycle.go. A service is a value of any type; what its
-- Start or Stop answers is part of the event with which its goroutine ends. A run of Start or Stop is a
-- list of such events, in the order in which the goroutines and the caller make their steps.
pub mod Sound
pub mod Outcome
pub mod Termination
mod Tests
use order_flow.Prelude.{
  ◌≡◌, Bool, true, false, not, ◌&&◌, ℕ, zero, suc, Option, none, some, List, [], ◌∷◌, ◌++◌, map,
  String, if◌then◌else◌,
}
use order_flow.Errors.{GoError}

pub record Manager (Svc : Type 0) : Type 0 where
  pub services : List Svc

-- Which of the manager's methods is running.
pub data Method : Type 0 where
  start : Method
  stop : Method

-- A run of Start or of Stop: the services whose goroutine has not ended, those whose goroutine has, in
-- the order in which they did, with their answers, the channel of errors, the errors that the caller
-- has received, and what it has returned.
pub record Run (Svc : Type 0) : Type 0 where
  pub running : List Svc
  pub ended : List (Svc × Option GoError)
  pub channel : List GoError
  pub closed : Bool
  pub errors : List GoError
  pub returned : Option (Option GoError)

-- A step: the goroutine of the service at an index ends, the channel is closed, the caller receives.
pub data Event : Type 0 where
  end_at : ℕ → Option GoError → Event
  close : Event
  receive : Event

abbrev pub first : List GoError → Option GoError
first [] = none
first (e ∷ es) = some e

-- Only an error is sent.
abbrev pub send : Option GoError → List GoError → List GoError
send none channel = channel
send (some e) channel = channel ++ (e ∷ [])

-- Start returns its first error, Stop collects them.
abbrev pub taken : Method → GoError → Option (Option GoError)
taken start e = some (some e)
taken stop e = none

module _ {Svc : Type 0} where
  -- `New`
  unfoldable pub new : Manager Svc
  new = record { services = [] }

  unfoldable pub register : Svc → Manager Svc → Manager Svc
  register svc m = record m { services = m.services ++ (svc ∷ []) }

  -- The goroutines are started, over a channel with room for an error of each.
  unfoldable pub begin : Manager Svc → Run Svc
  begin m = record {
    running = m.services;
    ended = [];
    channel = [];
    closed = false;
    errors = [];
    returned = none;
  }

  unfoldable pub pick : ℕ → List Svc → Option (Svc × List Svc)
  pick k [] = none
  pick zero (s ∷ rest) = some (s, rest)
  pick (suc k) (s ∷ rest) = elim (pick k rest) [
    | none ↦ none
    | some (t, others) ↦ some (t, s ∷ others)
  ]

  -- A service's goroutine
  unfoldable pub end_one : Option GoError → Run Svc → Option (Svc × List Svc) → Option (Run Svc)
  end_one answer r none = none
  end_one answer r (some (s, rest)) = some (record r {
    running = rest;
    ended = r.ended ++ ((s, answer) ∷ []);
    channel = send answer r.channel;
  })

  -- The goroutine that waits for all others
  unfoldable pub close_channel : Run Svc → List Svc → Bool → Option (Run Svc)
  close_channel r [] false = some (record r { closed = true })
  close_channel r [] true = none
  close_channel r (s ∷ rest) closed = none

  -- The caller's loop over the channel: it blocks while the channel is empty and open. Start is still in
  -- its loop only while it has received no error, so that `first` is nil for it.
  unfoldable pub receive_one :
      Method → Run Svc → List GoError → Bool → Option (Option GoError) → Option (Run Svc)
  receive_one m r channel closed (some answer) = none
  receive_one m r [] false none = none
  receive_one m r [] true none = some (record r { returned = some (first r.errors) })
  receive_one m r (e ∷ rest) closed none =
      some (record r { channel = rest; errors = r.errors ++ (e ∷ []); returned = taken m e })

  unfoldable pub step : Method → Event → Run Svc → Option (Run Svc)
  step m (end_at k answer) r = end_one answer r (pick k r.running)
  step m close r = close_channel r r.running r.closed
  step m receive r = receive_one m r r.channel r.closed r.returned

  -- `Start` or `Stop` over an interleaving; `none` is one that the code cannot make.
  unfoldable pub run : Method → List Event → Run Svc → Option (Run Svc)
  run m [] r = some r
  run m (e ∷ es) r = elim (step m e r) [ none ↦ none | some r' ↦ run m es r' ]

-- `ServiceWrapper`: a service of two functions, which act on the process's state, and may be nil.
pub record ServiceWrapper (Ctx St : Type 0) : Type 0 where
  pub name : String
  pub start_fn : Option (Ctx → St → Option GoError × St)
  pub stop_fn : Option (Ctx → St → Option GoError × St)

module _ {Ctx St : Type 0} where
  abbrev pub call : Option (Ctx → St → Option GoError × St) → Ctx → St → Option GoError × St
  call none ctx st = (none, st)
  call (some f) ctx st = f ctx st

  unfoldable pub start_wrapper : ServiceWrapper Ctx St → Ctx → St → Option GoError × St
  start_wrapper w ctx st = call w.start_fn ctx st

  unfoldable pub stop_wrapper : ServiceWrapper Ctx St → Ctx → St → Option GoError × St
  stop_wrapper w ctx st = call w.stop_fn ctx st
