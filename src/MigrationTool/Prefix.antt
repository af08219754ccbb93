-- ===== src/MigrationTool/Prefix.antt =====
-- How far runUpMigrations (migrations/migrate.go) gets: each migration has a transaction of its own.
use order_flow.Prelude.{
  ◌≡◌, refl, sym, subst, ap, inl, inr, Option, none, some, List, [], ◌∷◌, ◌++◌, Bool-cases,
  Option-cases,
}
use order_flow.Errors.{GoError, str, int}
use order_flow.Database.{CommitLaws, transaction-failed}
use order_flow.Migrations.{Migration, AppliedRow, MigrationServer, is_applied, to_apply}
use order_flow.MigrationTool.Runs.{apply_one, run_up, reworded, up_steps}

module _ {St : Type 0} (db : MigrationServer St) where
  -- The transactions of these migrations, one after the other, have all succeeded.
  pub data AllApplied : List Migration → St → St → Type 0 where
    nothing : {st : St} → AllApplied [] st st
    one_more :
        {m : Migration} {ms : List Migration} {st st' : St}
        → (apply_one db m st).0 ≡ none
        → AllApplied ms (apply_one db m st).1 st'
        → AllApplied (m ∷ ms) st st'

  -- How a run over migrations has ended: all are applied, or those before the first that fails, whose
  -- error is returned.
  pub data Ended (ms : List Migration) (st : St) (err : Option GoError) (st' : St) : Type 0 where
    all : AllApplied ms st st' → err ≡ none → Ended ms st err st'
    stopped :
        (done : List Migration) (m : Migration) (rest : List Migration) (e : GoError)
        → ms ≡ done ++ (m ∷ rest)
        → AllApplied done st st'
        → (apply_one db m st').0 ≡ some e
        → err ≡ some e
        → Ended ms st err st'

  apply_one-failed :
      (m : Migration) (st : St) (e : GoError)
      → CommitLaws db.server
      → (apply_one db m st).0 ≡ some e
      → (apply_one db m st).1 ≡ st
  unfolding apply_one
  apply_one-failed m st e laws h =
      transaction-failed db.server (reworded (str "failed to begin transaction" ∷ []))
        (reworded (str "failed to commit migration " ∷ int m.version ∷ [])) (up_steps m) st e laws h

  after_one :
      {m : Migration} {ms : List Migration} {st : St} {err : Option GoError} {st' : St}
      → (apply_one db m st).0 ≡ none
      → Ended ms (apply_one db m st).1 err st'
      → Ended (m ∷ ms) st err st'
  after_one ok (all done end) = all (one_more ok done) end
  after_one {m} ok (stopped done x rest e split before failed end) =
      stopped (m ∷ done) x rest e (ap (λ l. m ∷ l) split) (one_more ok before) failed end

  -- Over the migrations that are not applied yet, in their order, `runUpMigrations` applies each by
  -- itself, and stops at the first that fails: those before it stay, its own changes do not, and no later
  -- one is tried. A commit installs the transaction, or fails and changes nothing.
  pub run_up-Ended :
      (rs : List AppliedRow) (ms : List Migration) (st : St)
      → CommitLaws db.server
      → Ended (to_apply ms rs) st (run_up db rs ms st).0 (run_up db rs ms st).1
  unfolding run_up to_apply
  run_up-Ended rs [] st laws = all nothing refl
  run_up-Ended rs (m ∷ ms) st laws = elim (Bool-cases (is_applied m.version rs)) [
    | inl old ↦ rw old (run_up-Ended rs ms st laws)
    | inr missing ↦ elim (Option-cases (apply_one db m st).0) [
      | inl ok ↦ rw (missing, ok) (after_one ok (run_up-Ended rs ms (apply_one db m st).1 laws))
      | inr (e, failed) ↦
          rw (missing, failed)
            (subst (Ended (m ∷ to_apply ms rs) st (some e))
              (sym (apply_one-failed m st e laws failed))
              (stopped [] m (to_apply ms rs) e refl nothing failed refl))
    ]
  ]
