-- ===== src/MigrationTool/Tests.antt =====
-- Runs of the migration tool (migrations/migrate.go), and its theorem at a concrete input.
use order_flow.Prelude.{arith, ◌≡◌, refl, none, List, [], ◌∷◌, pos, String}
use order_flow.Errors.{plain, str, int, error_text}
use order_flow.Database.{CommitLaws, run_steps, transaction}
use order_flow.Migrations.{Migration, to_apply, is_applied, find_applied, find_migration}
use order_flow.Migrations.Samples.{Store, row, db}
use order_flow.MigrationTool.Scripts.{get_migrations, add_indexes_up}
use order_flow.MigrationTool.Runs.{
  Exit, fatal, finished, main, run_command, run_up, apply_one, run_up_migrations,
  run_down_migration, create_migrations_table, get_applied_migrations, selected_rows, show_status,
}
use order_flow.MigrationTool.Prefix.{Ended, run_up-Ended}
use order_flow.Strings.{atoi, digits_value}

program : Unit {0}
unfolding main run_command run_up apply_one run_up_migrations run_down_migration
    create_migrations_table get_applied_migrations selected_rows show_status get_migrations
    error_text is_applied find_applied find_migration run_steps transaction atoi digits_value
program = tt

commits : CommitLaws db.server
commits = record { commit_done = λ st view h. refl; commit_failed = λ st view e h. ground arith }

abbrev start : List String → Store → Exit × Store
start = main db (λ v st. none) (λ v. plain []) (λ url. none) (λ st. none)

abbrev one : Store
one = record { applied = row (pos 1) "001_init" ∷ []; scripts = [] }

goes_up : start ("postgres://db" ∷ "up" ∷ []) one ≡ (
  finished [],
  record {
    applied = row (pos 2) "002_add_indexes" ∷ row (pos 1) "001_init" ∷ [];
    scripts = add_indexes_up ∷ [];
  },
)
unfolding program
goes_up = refl

goes_down : start ("postgres://db" ∷ "down" ∷ "2" ∷ []) one ≡ (
  fatal (
      str "Failed to run down migration"
      ∷ str ": "
      ∷ str "migration version "
      ∷ int (pos 2)
      ∷ str " is not applied"
      ∷ []),
  one,
)
unfolding program
goes_down = refl

abbrev bad : Migration
bad = record { version = pos 3; name = "bad"; up_sql = "bad"; down_sql = ""; applied_at = none }

abbrev three : List Migration
three = record bad { version = pos 2; up_sql = "good" } ∷ bad ∷ record bad { version = pos 4 } ∷ []

run_up-Ended_example :
    Ended db
      (to_apply three one.applied)
      one
      (run_up db one.applied three one).0
      (run_up db one.applied three one).1
run_up-Ended_example = run_up-Ended db one.applied three one commits
