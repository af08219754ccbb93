-- ===== src/Migrations/Repeat.antt =====
-- A second Migrate (internal/migrations/migrator.go) has nothing to do.
use order_flow.Prelude.{
  ◌≡◌, refl, sym, ap, ◌∙◌, inr, Bool, Bool-cases, inl, All, true, false, ◌||◌, none, List, [], ◌∷◌,
  ℤ, eqb_ℤ, arith, String,
}
use order_flow.Database.{CommitLaws, run_steps, run_steps-cons}
use order_flow.Migrations.{
  Migration, AppliedRow, Migrator, create_table, script, insert_version, MigrationServer, Selected,
  query_failed, scan_failed, iteration_failed, rows, is_applied, applied_rows, up_step, note_step,
  initialize, get_applied_migrations, to_apply, apply_steps, apply_all, migrate_pending, migrate,
}
use order_flow.Migrations.Atomic.{with_table, migrate-atomic}

-- The up script of a migration leaves the rows of the table of migrations alone.
abbrev pub KeepsTable : {St : Type 0} → MigrationServer St → String → Migration → Type 0
KeepsTable {St} db table m =
    (st : St)
    → (db.exec (script m.up_sql) st).0 ≡ none
    → db.select_rows table (db.exec (script m.up_sql) st).1 ≡ db.select_rows table st

-- What the migrator relies on of its table and of its own migrations: to create the table again
-- changes nothing (CREATE TABLE IF NOT EXISTS), none of the migrations' up scripts touches its rows,
-- and an insert adds its version.
pub record TableLaws {St : Type 0} (db : MigrationServer St) (m : Migrator) : Type 0 where
  pub create_again :
      (rs : List AppliedRow) (st : St)
      → db.select_rows m.table st ≡ rows rs
      → db.exec (create_table m.table) st ≡ (none, st)
  pub scripts_keep : All (KeepsTable db m.table) m.migrations
  pub insert_adds :
      (name : String) (v : ℤ) (rs : List AppliedRow) (st : St)
      → (db.exec (insert_version m.table v name) st).0 ≡ none
      → db.select_rows m.table st ≡ rows rs
      → (rs' : List AppliedRow) × (db.select_rows m.table
            (db.exec (insert_version m.table v name) st).1
          ≡ rows rs')
        × ((w : ℤ) → is_applied w rs' ≡ (eqb_ℤ v w || is_applied w rs))

unfoldable pub has_version : ℤ → List Migration → Bool
has_version w [] = false
has_version w (m ∷ ms) = eqb_ℤ m.version w || has_version w ms

eqb-eq : (a b : ℤ) → eqb_ℤ a b ≡ true → a ≡ b
eqb-eq a b h = ground arith

-- A migration that is missing is among those to apply.
to_apply-has :
    (w : ℤ) (ms : List Migration) (rs : List AppliedRow)
    → has_version w ms ≡ true
    → (has_version w (to_apply ms rs) || is_applied w rs) ≡ true
unfolding to_apply has_version
to_apply-has w [] rs h = ground arith
to_apply-has w (m ∷ ms) rs h = ground (
  arith,
  to_apply-has w ms rs,
  λ (e : eqb_ℤ m.version w ≡ true). ap (λ v. is_applied v rs) (eqb-eq m.version w e),
)

to_apply-nil :
    (ms : List Migration) (rs : List AppliedRow)
    → ((w : ℤ) → has_version w ms ≡ true → is_applied w rs ≡ true)
    → to_apply ms rs ≡ []
unfolding to_apply has_version
to_apply-nil [] rs all = refl
to_apply-nil (m ∷ ms) rs all =
    ground (arith, all m.version (ground arith), to_apply-nil ms rs (λ w h. all w (ground arith)))

to_apply-All :
    (P : Migration → Type 0) (ms : List Migration) (rs : List AppliedRow)
    → All P ms
    → All P (to_apply ms rs)
unfolding to_apply
to_apply-All P [] rs h = tt
to_apply-All P (m ∷ ms) rs (p, h) =
    let rest = to_apply-All P ms rs h in
    elim (Bool-cases (is_applied m.version rs)) [ inl e ↦ rw e rest | inr e ↦ rw e (p, rest) ]

applied-rows :
    (selected : Selected) (found : List AppliedRow)
    → applied_rows selected ≡ inr found
    → selected ≡ rows found
unfolding applied_rows
applied-rows (query_failed e) found h = ground arith
applied-rows (scan_failed e) found h = ground arith
applied-rows (iteration_failed e) found h = ground arith
applied-rows (rows rs) found h = ground arith

module _ {St : Type 0} (db : MigrationServer St) (m : Migrator) (laws : TableLaws db m) where
  run_none :
      (table : String) (rs : List AppliedRow) (st : St)
      → db.select_rows table st ≡ rows rs
      → (rs' : List AppliedRow) × (db.select_rows table (run_steps db.server [] st).1 ≡ rows rs')
        × ((w : ℤ) → is_applied w rs' ≡ is_applied w rs)
  unfolding run_steps
  run_none table rs st at = (rs, at, λ w. refl)

  run_steps-rows :
      (ms : List Migration) (rs : List AppliedRow) (st : St)
      → All (KeepsTable db m.table) ms
      → (run_steps db.server (apply_steps m.table ms) st).0 ≡ none
      → db.select_rows m.table st ≡ rows rs
      → (rs' : List AppliedRow) × (db.select_rows m.table
            (run_steps db.server (apply_steps m.table ms) st).1
          ≡ rows rs')
        × ((w : ℤ) → is_applied w rs' ≡ (has_version w ms || is_applied w rs))
  unfolding apply_steps has_version
  run_steps-rows [] rs st keeps ok at = run_none m.table rs st at
  run_steps-rows (x ∷ ms) rs st (keep, keeps) ok at =
      let up = script x.up_sql in
      let note = insert_version m.table x.version x.name in
      let st1 = (db.exec up st).1 in
      let st2 = (db.exec note st1).1 in
      let (done, same) =
        run_steps-cons db.server (up_step x) (note_step m.table x ∷ apply_steps m.table ms) st ok in
      let ok' = ap (λ r. r.0) (sym same) ∙ ok in
      let (noted, same') =
        run_steps-cons db.server (note_step m.table x) (apply_steps m.table ms) st1 ok' in
      let (rs1, at1, adds) = laws.insert_adds x.name x.version rs st1 noted (keep st done ∙ at) in
      let (rs2, at2, has) = run_steps-rows ms rs1 st2 keeps (ap (λ r. r.0) (sym same') ∙ ok') at1 in
      (
        rs2,
        ap (λ r. db.select_rows m.table r.1) (same ∙ same') ∙ at2,
        λ w. ground (arith, has w, adds w),
      )

  read-rows :
      (st : St) (found : List AppliedRow)
      → get_applied_migrations db m st ≡ inr found
      → db.select_rows m.table st ≡ rows found
  unfolding get_applied_migrations
  read-rows st found h = applied-rows (db.select_rows m.table st) found h

  again :
      (rs : List AppliedRow) (st : St)
      → db.select_rows m.table st ≡ rows rs
      → to_apply m.migrations rs ≡ []
      → migrate db m st ≡ (none, st)
  unfolding migrate initialize get_applied_migrations applied_rows migrate_pending apply_all
  again rs st at nothing = ground (arith, laws.create_again rs st at)

  -- After a Migrate that returned nil, the next one returns nil and leaves the database exactly as it is.
  -- To create the migrator's table again changes nothing, the table keeps what is inserted into it,
  -- and none of the migrator's own up scripts touches its rows; a commit installs the transaction, or
  -- fails and changes nothing.
  pub migrate-again :
      (st : St)
      → CommitLaws db.server
      → (migrate db m st).0 ≡ none
      → migrate db m (migrate db m st).1 ≡ (none, (migrate db m st).1)
  migrate-again st commits ok =
      let done = (migrate-atomic db commits m st).1 ok in
      let pending = to_apply m.migrations done.found in
      let (rs, at, has) =
        run_steps-rows pending done.found (with_table db commits m st)
          (to_apply-All (KeepsTable db m.table) m.migrations done.found laws.scripts_keep)
          done.all_ran (read-rows (with_table db commits m st) done.found done.read) in
      again rs (migrate db m st).1 (ap (db.select_rows m.table) done.kept ∙ at)
        (to_apply-nil m.migrations rs (λ w h. has w ∙ to_apply-has w m.migrations done.found h))
