-- ===== src/Migrations/Undo.antt =====
-- Rollback (internal/migrations/migrator.go) undoes the migration of the highest version.
use order_flow.Prelude.{
  ◌≡◌, ◌⊎◌, true, false, Option, none, List, [], ◌∷◌, ℤ, pos, ◌≤ℤ◌, str_eq, All,
}
use order_flow.Errors.{GoError, str}
use order_flow.Database.{CommitLaws, run_steps, transaction}
use order_flow.Migrations.{
  Migration, AppliedRow, Migrator, MigrationServer, database_error, is_applied, rollback_steps,
  rollback,
}

module _ {St : Type 0} (db : MigrationServer St) (laws : CommitLaws db.server) where
  -- What Rollback has done when it returns nil and rows were found: the version of the migration `undone`
  -- is that of a row, or 0, and no row has a higher one; its script and the deletion of its row are
  -- what has run.
  pub record RolledBack (m : Migrator) (rs : List AppliedRow) (st : St) : Type 0 where
    pub undone : Migration
    pub highest : All (λ r. r.version ≤ℤ undone.version) rs
    pub applied : (is_applied undone.version rs ≡ true) ⊎ (undone.version ≡ pos 0)
    pub has_script : str_eq undone.down_sql "" ≡ false
    pub all_ran : (run_steps db.server (rollback_steps m.table undone.version undone) st).0 ≡ none
    pub kept :
        (rollback db m st).1
        ≡ (run_steps db.server (rollback_steps m.table undone.version undone) st).1

  abbrev undoing : Migrator → ℤ → Migration → St → Option GoError × St
  undoing m v x st =
      transaction db.server (database_error (str "failed to begin rollback transaction" ∷ []))
        (database_error (str "failed to commit rollback transaction" ∷ []))
        (rollback_steps m.table v x) st
