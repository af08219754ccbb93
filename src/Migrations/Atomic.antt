-- ===== src/Migrations/Atomic.antt =====
-- Migrate (internal/migrations/migrator.go) applies all that is missing, or nothing.
use order_flow.Prelude.{
  ◌≡◌, refl, sym, ap, ◌∙◌, ◌⊎◌, inl, inr, none, some, List, [], ◌∷◌, arith, Option-cases,
}
use order_flow.Errors.{GoError, str}
use order_flow.Database.{CommitLaws, run_steps, transaction-failed, transaction-done}
use order_flow.Migrations.{
  Migration, AppliedRow, database_error, apply_all, Migrator, MigrationServer, initialize,
  get_applied_migrations, to_apply, apply_steps, migrate_pending, migrate,
}

module _ {St : Type 0} (db : MigrationServer St) (laws : CommitLaws db.server) where
  -- The database after the statements that create the table.
  abbrev pub with_table : Migrator → St → St
  with_table m st = (initialize db m st).1

  apply_all-failed :
      (m : Migrator) (ms : List Migration) (st : St) (e : GoError)
      → (apply_all db m ms st).0 ≡ some e
      → (apply_all db m ms st).1 ≡ st
  unfolding apply_all
  apply_all-failed m [] st e h = refl
  apply_all-failed m (x ∷ xs) st e h =
      transaction-failed db.server
        (database_error (str "failed to begin migration transaction" ∷ []))
        (database_error (str "failed to commit migration transaction" ∷ []))
        (apply_steps m.table (x ∷ xs)) st e laws h

  apply_all-done :
      (m : Migrator) (ms : List Migration) (st : St)
      → (apply_all db m ms st).0 ≡ none
      → ((run_steps db.server (apply_steps m.table ms) st).0 ≡ none)
        × ((apply_all db m ms st).1 ≡ (run_steps db.server (apply_steps m.table ms) st).1)
  unfolding apply_all run_steps apply_steps
  apply_all-done m [] st h = (refl, refl)
  apply_all-done m (x ∷ xs) st h =
      transaction-done db.server (database_error (str "failed to begin migration transaction" ∷ []))
        (database_error (str "failed to commit migration transaction" ∷ []))
        (apply_steps m.table (x ∷ xs)) st laws h

  -- What Migrate has done when it returns nil.
  pub record Migrated (m : Migrator) (st : St) : Type 0 where
    pub found : List AppliedRow
    pub read : get_applied_migrations db m (with_table m st) ≡ inr found
    pub all_ran :
        (run_steps db.server
          (apply_steps m.table (to_apply m.migrations found))
          (with_table m st)).0
        ≡ none
    pub kept :
        (migrate db m st).1
        ≡ (run_steps db.server
            (apply_steps m.table (to_apply m.migrations found))
            (with_table m st)).1

  pending-failed :
      (m : Migrator) (found : GoError ⊎ List AppliedRow) (st : St) (e : GoError)
      → (migrate_pending db m found st).0 ≡ some e
      → (migrate_pending db m found st).1 ≡ st
  unfolding migrate_pending
  pending-failed m (inl c) st e h = refl
  pending-failed m (inr rs) st e h = apply_all-failed m (to_apply m.migrations rs) st e h

  pending-done :
      (m : Migrator) (found : GoError ⊎ List AppliedRow) (st : St)
      → (migrate_pending db m found st).0 ≡ none
      → (rs : List AppliedRow) × (found ≡ inr rs)
        × ((run_steps db.server (apply_steps m.table (to_apply m.migrations rs)) st).0 ≡ none)
        × ((migrate_pending db m found st).1
            ≡ (run_steps db.server (apply_steps m.table (to_apply m.migrations rs)) st).1)
  unfolding migrate_pending
  pending-done m (inl c) st h = cc
  pending-done m (inr rs) st h =
      let (ok, kept) = apply_all-done m (to_apply m.migrations rs) st h in (rs, refl, ok, kept)

  -- The result of Migrate, by that of creating the table.
  pub migrate-created :
      (m : Migrator) (st : St)
      → (initialize db m st).0 ≡ none
      → migrate db m st
        ≡ migrate_pending db m (get_applied_migrations db m (with_table m st)) (with_table m st)
  unfolding migrate
  migrate-created m st h = ground arith

  migrate-not_created :
      (m : Migrator) (st : St) (e : GoError)
      → (initialize db m st).0 ≡ some e
      → migrate db m st ≡ (some e, with_table m st)
  unfolding migrate
  migrate-not_created m st e h = ground arith

  pub migrate-atomic :
      (m : Migrator) (st : St)
      → ((e : GoError) → (migrate db m st).0 ≡ some e → (migrate db m st).1 ≡ with_table m st)
        × ((migrate db m st).0 ≡ none → Migrated m st)
  migrate-atomic m st = elim (Option-cases (initialize db m st).0) [
    | inr (c, h) ↦
        let at = migrate-not_created m st c h in
        (λ e f. ap (λ r. r.1) at, λ ok. let bad = sym (ap (λ r. r.0) at) ∙ ok in ground arith)
    | inl h ↦
        let at = migrate-created m st h in
        let found = get_applied_migrations db m (with_table m st) in
        (
          λ e f.
              ap (λ r. r.1) at
              ∙ pending-failed m found (with_table m st) e (sym (ap (λ r. r.0) at) ∙ f),
          λ ok.
              let (rs, read, ran, kept) =
                pending-done m found (with_table m st) (sym (ap (λ r. r.0) at) ∙ ok) in
              record { found = rs; read = read; all_ran = ran; kept = ap (λ r. r.1) at ∙ kept },
        )
  ]
