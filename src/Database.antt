-- ===== src/Database.antt =====
-- A database connection, as far as the service uses it: the server is a parameter that runs commands
-- on its state. A transaction runs its commands on a state of its own, which a commit installs.
use order_flow.Prelude.{
  ◌≡◌, refl, Option, none, some, List, [], ◌∷◌, ◌++◌, arith, inl, inr, Option-cases,
}
use order_flow.Errors.{GoError}

pub record Server (St Cmd : Type 0) : Type 0 where
  pub exec : Cmd → St → Option GoError × St
  pub begin : St → Option GoError
  -- of the state before the transaction and the one that the transaction has made
  pub commit : St → St → Option GoError × St

-- What the service relies on: a commit that succeeds installs the transaction's state, and one that
-- fails leaves the state before it.
pub record CommitLaws {St Cmd : Type 0} (server : Server St Cmd) : Type 0 where
  pub commit_done :
      (st view : St) → (server.commit st view).0 ≡ none → (server.commit st view).1 ≡ view
  pub commit_failed :
      (st view : St) (e : GoError)
      → (server.commit st view).0 ≡ some e
      → (server.commit st view).1 ≡ st

-- A command, and what the code makes of its error.
pub record Step (Cmd : Type 0) : Type 0 where
  pub command : Cmd
  pub on_error : GoError → GoError

module _ {St Cmd : Type 0} (server : Server St Cmd) where
  open server use {exec, begin, commit}

  -- The commands in their order, up to the first that fails.
  unfoldable pub run_steps : List (Step Cmd) → St → Option GoError × St
  run_steps [] st = (none, st)
  run_steps (s ∷ steps) st =
      let (err, st') = exec s.command st in
      elim err [ none ↦ run_steps steps st' | some e ↦ (some (s.on_error e), st') ]

  committed : (GoError → GoError) → Option GoError × St → Option GoError × St
  committed on_commit (none, st) = (none, st)
  committed on_commit (some e, st) = (some (on_commit e), st)

  finished : (GoError → GoError) → St → Option GoError → St → Option GoError × St
  unfolding committed
  finished on_commit st (some e) view = (some e, st)
  finished on_commit st none view = committed on_commit (commit st view)

  -- `Begin`, the commands, and `Commit`, with a `Rollback` where a command fails.
  unfoldable pub transaction :
      (GoError → GoError) → (GoError → GoError) → List (Step Cmd) → St → Option GoError × St
  unfolding finished
  transaction on_begin on_commit steps st = elim (begin st) [
    | some e ↦ (some (on_begin e), st)
    | none ↦ let (err, view) = run_steps steps st in finished on_commit st err view
  ]

  pub run_steps-append :
      (xs ys : List (Step Cmd)) (st : St)
      → (run_steps xs st).0 ≡ none
      → run_steps (xs ++ ys) st ≡ run_steps ys (run_steps xs st).1
  unfolding run_steps
  run_steps-append [] ys st ok = refl
  run_steps-append (x ∷ xs) ys st ok = ground (arith, run_steps-append xs ys (exec x.command st).1)

  -- Where the steps succeed, the first has, and the others have after it.
  pub run_steps-cons :
      (s : Step Cmd) (steps : List (Step Cmd)) (st : St)
      → (run_steps (s ∷ steps) st).0 ≡ none
      → ((exec s.command st).0 ≡ none)
        × (run_steps (s ∷ steps) st ≡ run_steps steps (exec s.command st).1)
  unfolding run_steps
  run_steps-cons s steps st ok = elim (Option-cases (exec s.command st).0) [
    | inl h ↦ (h, ground arith)
    | inr (e, h) ↦ ground arith
  ]

  committed-failed :
      (on_commit : GoError → GoError) (r : Option GoError × St) (st : St) (e : GoError)
      → ((c : GoError) → r.0 ≡ some c → r.1 ≡ st)
      → (committed on_commit r).0 ≡ some e
      → (committed on_commit r).1 ≡ st
  unfolding committed
  committed-failed on_commit (none, st') st e law h = cc
  committed-failed on_commit (some c, st') st e law h = law c refl

  committed-done :
      (on_commit : GoError → GoError) (r : Option GoError × St) (view : St)
      → (r.0 ≡ none → r.1 ≡ view)
      → (committed on_commit r).0 ≡ none
      → (committed on_commit r).1 ≡ view
  unfolding committed
  committed-done on_commit (none, st') view law h = law refl
  committed-done on_commit (some c, st') view law h = cc

  -- A transaction that fails changes nothing.
  pub transaction-failed :
      (on_begin on_commit : GoError → GoError) (steps : List (Step Cmd)) (st : St) (e : GoError)
      → CommitLaws server
      → (transaction on_begin on_commit steps st).0 ≡ some e
      → (transaction on_begin on_commit steps st).1 ≡ st
  unfolding transaction
  transaction-failed on_begin on_commit steps st e laws h =
      elim (Option-cases (run_steps steps st).0) [
        | inr (c, h') ↦ ground arith
        | inl ok ↦
            let kept =
              committed-failed on_commit (commit st (run_steps steps st).1) st e
                (laws.commit_failed st (run_steps steps st).1) in
            ground arith
      ]

  -- One that succeeds has run all its commands.
  pub transaction-done :
      (on_begin on_commit : GoError → GoError) (steps : List (Step Cmd)) (st : St)
      → CommitLaws server
      → (transaction on_begin on_commit steps st).0 ≡ none
      → ((run_steps steps st).0 ≡ none)
        × ((transaction on_begin on_commit steps st).1 ≡ (run_steps steps st).1)
  unfolding transaction
  transaction-done on_begin on_commit steps st laws h =
      let view = (run_steps steps st).1 in
      let kept = committed-done on_commit (commit st view) view (laws.commit_done st view) in
      ground arith
