-- ===== src/Migrations/Tests.antt =====
-- Runs of the migrator (internal/migrations/migrator.go), and its theorems at concrete inputs.
use mathlib.Core.List.{Permᴰ}
use order_flow.Prelude.{
  ◌≡◌, refl, ap, ◌∙◌, none, List, [], ◌∷◌, map, ℤ, pos, eqb_ℤ, ◌||◌, String, arith,
}
use order_flow.Database.{CommitLaws, run_steps, transaction}
use order_flow.Migrations.{
  AppliedRow, Migrator, script, rows, is_applied, find_applied, new_migrator, add_migration,
  sort_by_version, place, to_apply, apply_steps, rollback_steps, last_version, find_migration,
  initialize, get_applied_migrations, applied_rows, apply_all, migrate_pending, migrate,
  rollback_found, rollback_applied, rollback, get_status, statuses,
}
use order_flow.Migrations.Sorting.{added, add_all, IsSorted, add_all-IsSorted}
use order_flow.Migrations.Repeat.{TableLaws, migrate-again}
use order_flow.Migrations.Samples.{Store, row, run, db, empty}
use order_flow.Migrations.Scripts.{load_migrations_from_files}

commits : CommitLaws db.server
commits = record { commit_done = λ st view h. refl; commit_failed = λ st view e h. ground arith }

script_keeps_applied : (sql : String) (st : Store) → (run (script sql) st).1.applied ≡ st.applied
script_keeps_applied sql st = ground arith

is_applied-row :
    (w v : ℤ) (name : String) (rs : List AppliedRow)
    → is_applied w (row v name ∷ rs) ≡ (eqb_ℤ v w || is_applied w rs)
unfolding is_applied find_applied
is_applied-row w v name rs = ground arith

rows-injective : (xs ys : List AppliedRow) → rows xs ≡ rows ys → xs ≡ ys
rows-injective xs ys h = cc

abbrev calls : List (ℤ × String × String × String)
calls = (pos 2, "second", "up 2", "down 2") ∷ (pos 1, "first", "up 1", "down 1") ∷ []

abbrev two : Migrator
two = add_all calls (new_migrator "")

program : Unit {0}
unfolding new_migrator add_migration sort_by_version place add_all to_apply apply_steps
    rollback_steps last_version find_migration initialize get_applied_migrations applied_rows
    apply_all migrate_pending migrate rollback_found rollback_applied rollback get_status statuses
    is_applied find_applied run_steps transaction load_migrations_from_files
program = tt

abbrev both : Store
both = record { applied = row (pos 1) "first" ∷ row (pos 2) "second" ∷ []; scripts = [] }

migrates : migrate db two empty ≡ (
  none,
  record {
    applied = row (pos 2) "second" ∷ row (pos 1) "first" ∷ [];
    scripts = "up 2" ∷ "up 1" ∷ [];
  },
)
unfolding program
migrates = refl

stops_at_bad : (migrate db (add_migration two (pos 3) "third" "bad" "") empty).1 ≡ empty
unfolding program
stops_at_bad = refl

add_all-IsSorted_example : IsSorted two.migrations × Permᴰ (map added calls) two.migrations
unfolding new_migrator
add_all-IsSorted_example = add_all-IsSorted calls (new_migrator "") tt

table : TableLaws db two
unfolding program
table = record {
  create_again = λ rs st h. refl;
  scripts_keep = (
    λ st h. ap rows (script_keeps_applied "up 1" st),
    (λ st h. ap rows (script_keeps_applied "up 2" st), tt),
  );
  insert_adds = λ name v rs st h at. (
    row v name ∷ st.applied,
    refl,
    λ w.
        is_applied-row w v name st.applied
        ∙ ap (λ l. eqb_ℤ v w || is_applied w l) (rows-injective st.applied rs at),
  );
}

migrate-again_example : migrate db two (migrate db two empty).1 ≡ (none, (migrate db two empty).1)
unfolding program
migrate-again_example = migrate-again db two table empty commits refl

rolls_back :
    rollback db two both
    ≡ (none, record { applied = row (pos 1) "first" ∷ []; scripts = "down 2" ∷ [] })
unfolding program
rolls_back = refl
