-- ===== src/Migrations.antt =====
-- The migrator of internal/migrations/migrator.go. The database is a parameter: a server that runs the
-- commands, whose table of migrations is read by a query.
pub mod Sorting
pub mod Atomic
pub mod Repeat
pub mod Undo
pub mod Scripts
pub mod Samples
mod Tests
use order_flow.Prelude.{
  ◌≡◌, Bool, true, false, Option, none, some, List, [], ◌∷◌, ◌++◌, map, ℤ, pos, ltb_ℤ, eqb_ℤ,
  if◌then◌else◌, Time, String, str_eq, ◌⊎◌, inl, inr,
}
use order_flow.Errors.{GoError, Message, str, int, database, new, wrap_error}
use order_flow.Database.{Server, Step, transaction}

pub record Migration : Type 0 where
  pub version : ℤ
  pub name : String
  pub up_sql : String
  pub down_sql : String
  pub applied_at : Option Time

pub record Migrator : Type 0 where
  pub table : String
  pub migrations : List Migration

unfoldable pub new_migrator : String → Migrator
new_migrator table_name = record {
  table = if str_eq table_name "" then "schema_migrations" else table_name;
  migrations = [];
}

-- `sort.Slice` by the version; Go leaves the order of equal versions open, and here they keep theirs.
unfoldable pub place : Migration → List Migration → List Migration
place m [] = m ∷ []
place m (n ∷ ns) =
    let rest = place m ns in if ltb_ℤ n.version m.version then n ∷ rest else m ∷ n ∷ ns

unfoldable pub sort_by_version : List Migration → List Migration
sort_by_version [] = []
sort_by_version (m ∷ ms) = place m (sort_by_version ms)

unfoldable pub add_migration : Migrator → ℤ → String → String → String → Migrator
add_migration m version name up down = record m {
  migrations = sort_by_version (
      m.migrations
      ++ (record { version = version; name = name; up_sql = up; down_sql = down; applied_at = none }
          ∷ []));
}

-- The statements that the migrator sends: a script, and those on its own table.
pub data Command : Type 0 where
  create_table : String → Command
  script : String → Command
  insert_version : String → ℤ → String → Command
  delete_version : String → ℤ → Command

-- A row of the table.
pub record AppliedRow : Type 0 where
  pub version : ℤ
  pub name : String
  pub applied_at : Time

-- The outcome of the query of all rows.
pub data Selected : Type 0 where
  query_failed scan_failed iteration_failed : GoError → Selected
  rows : List AppliedRow → Selected

pub record MigrationServer (St : Type 0) : Type 0 where
  pub server : Server St Command
  pub open server use *
  pub select_rows : String → St → Selected

-- `apperrors.Wrap(err, ErrorTypeDatabase, ...)`
abbrev pub database_error : Message → GoError → GoError
database_error message e = wrap_error e database message ""

unfoldable pub applied_rows : Selected → GoError ⊎ List AppliedRow
applied_rows (query_failed e) =
    inl (database_error (str "failed to query applied migrations" ∷ []) e)
applied_rows (scan_failed e) = inl (database_error (str "failed to scan migration row" ∷ []) e)
applied_rows (iteration_failed e) =
    inl (database_error (str "error iterating migration rows" ∷ []) e)
applied_rows (rows rs) = inr rs

-- `applied[version]`: the last row of the version
unfoldable pub find_applied : ℤ → List AppliedRow → Option AppliedRow
find_applied v [] = none
find_applied v (r ∷ rs) = elim (find_applied v rs) [
  | some found ↦ some found
  | none ↦ if eqb_ℤ r.version v then some r else none
]

abbrev pub is_found : Option AppliedRow → Bool
is_found none = false
is_found (some r) = true

unfoldable pub is_applied : ℤ → List AppliedRow → Bool
is_applied v rs = is_found (find_applied v rs)

unfoldable pub to_apply : List Migration → List AppliedRow → List Migration
to_apply [] rs = []
to_apply (m ∷ ms) rs =
    let rest = to_apply ms rs in if is_applied m.version rs then rest else m ∷ rest

-- The two statements of `applyMigration`
abbrev pub up_step : Migration → Step Command
up_step m = record {
  command = script m.up_sql;
  on_error =
      database_error
        (str "failed to execute migration " ∷ int m.version ∷ str ": " ∷ str m.name ∷ []);
}

abbrev pub note_step : String → Migration → Step Command
note_step table m = record {
  command = insert_version table m.version m.name;
  on_error = database_error (str "failed to record migration" ∷ []);
}

unfoldable pub apply_steps : String → List Migration → List (Step Command)
apply_steps table [] = []
apply_steps table (m ∷ ms) = up_step m ∷ note_step table m ∷ apply_steps table ms

-- `MigrationStatus`
pub record MigrationStatus : Type 0 where
  pub version : ℤ
  pub name : String
  pub applied : Bool
  pub applied_at : Option Time

abbrev status_of : Migration → Option AppliedRow → MigrationStatus
status_of m none = record { version = m.version; name = m.name; applied = false; applied_at = none }
status_of m (some r) = record {
  version = m.version;
  name = m.name;
  applied = true;
  applied_at = some r.applied_at;
}

unfoldable pub statuses : List Migration → List AppliedRow → List MigrationStatus
statuses [] rs = []
statuses (m ∷ ms) rs = status_of m (find_applied m.version rs) ∷ statuses ms rs

-- The loop of Rollback over the keys of the map, from version 0.
unfoldable pub last_version : ℤ → List AppliedRow → ℤ
last_version v [] = v
last_version v (r ∷ rs) = last_version (if ltb_ℤ v r.version then r.version else v) rs

unfoldable pub find_migration : ℤ → List Migration → Option Migration
find_migration v [] = none
find_migration v (m ∷ ms) =
    let rest = find_migration v ms in if eqb_ℤ m.version v then some m else rest

unfoldable pub rollback_steps : String → ℤ → Migration → List (Step Command)
rollback_steps table v m =
    record {
      command = script m.down_sql;
      on_error = database_error (str "failed to execute rollback SQL for migration " ∷ int v ∷ []);
    }
    ∷ record {
      command = delete_version table v;
      on_error = database_error (str "failed to remove migration record" ∷ []);
    }
    ∷ []

module _ {St : Type 0} (db : MigrationServer St) where
  unfoldable pub initialize : Migrator → St → Option GoError × St
  initialize m st =
      let (err, st') = db.exec (create_table m.table) st in
      elim err [
        | none ↦ (none, st')
        | some e ↦ (some (database_error (str "failed to create migrations table" ∷ []) e), st')
      ]

  unfoldable pub get_applied_migrations : Migrator → St → GoError ⊎ List AppliedRow
  unfolding applied_rows
  get_applied_migrations m st = applied_rows (db.select_rows m.table st)

  unfoldable pub apply_all : Migrator → List Migration → St → Option GoError × St
  apply_all m [] st = (none, st)
  apply_all m (x ∷ xs) st =
      transaction db.server (database_error (str "failed to begin migration transaction" ∷ []))
        (database_error (str "failed to commit migration transaction" ∷ []))
        (apply_steps m.table (x ∷ xs)) st

  unfoldable pub migrate_pending : Migrator → GoError ⊎ List AppliedRow → St → Option GoError × St
  migrate_pending m (inl e) st = (some e, st)
  migrate_pending m (inr rs) st = apply_all m (to_apply m.migrations rs) st

  -- `Migrate`
  unfoldable pub migrate : Migrator → St → Option GoError × St
  migrate m st =
      let (err, st') = initialize m st in
      elim err [
        | some e ↦ (some e, st')
        | none ↦ migrate_pending m (get_applied_migrations m st') st'
      ]

  -- Once the migration of the last version is found.
  unfoldable pub rollback_found : Migrator → ℤ → Option Migration → St → Option GoError × St
  rollback_found m v none st =
      (some (new database (str "migration version " ∷ int v ∷ str " not found" ∷ [])), st)
  rollback_found m v (some x) st =
      if str_eq x.down_sql ""
      then (some (new database (str "no rollback SQL for migration " ∷ int v ∷ [])), st)
      else transaction db.server (database_error (str "failed to begin rollback transaction" ∷ []))
          (database_error (str "failed to commit rollback transaction" ∷ []))
          (rollback_steps m.table v x) st

  unfoldable pub rollback_applied : Migrator → GoError ⊎ List AppliedRow → St → Option GoError × St
  rollback_applied m (inl e) st = (some e, st)
  rollback_applied m (inr []) st = (none, st)
  rollback_applied m (inr (r ∷ rs)) st =
      let v = last_version (pos 0) (r ∷ rs) in rollback_found m v (find_migration v m.migrations) st

  -- `Rollback`
  unfoldable pub rollback : Migrator → St → Option GoError × St
  rollback m st = rollback_applied m (get_applied_migrations m st) st

  -- `GetStatus`
  unfoldable pub get_status : Migrator → St → GoError ⊎ List MigrationStatus
  get_status m st = elim (get_applied_migrations m st) [
    | inl e ↦ inl e
    | inr rs ↦ inr (statuses m.migrations rs)
  ]
