-- ===== src/MigrationTool/Runs.antt =====
-- The commands of migrations/migrate.go. The lines that it prints are returned; its log is left out.
use order_flow.Prelude.{
  Option, none, some, List, [], ◌∷◌, ◌++◌, ℤ, if◌then◌else◌, Time, String, str_eq, ◌⊎◌, inl, inr,
}
use order_flow.Strings.{codes, atoi}
use order_flow.Errors.{GoError, plain, Message, str, int, error_text}
use order_flow.Database.{Step, transaction}
use order_flow.Migrations.{
  Migration, AppliedRow, Command, create_table, script, insert_version, delete_version, Selected,
  query_failed, scan_failed, iteration_failed, rows, MigrationServer, is_applied, find_migration,
}
use order_flow.MigrationTool.Scripts.{get_migrations}

-- `fmt.Errorf("...: %v", err)`: the text of the error, not the error itself
abbrev pub reworded : Message → GoError → GoError
reworded m e = plain (m ++ (str ": " ∷ error_text e))

-- `getAppliedMigrations`
unfoldable pub selected_rows : Selected → GoError ⊎ List AppliedRow
selected_rows (query_failed e) = inl e
selected_rows (scan_failed e) = inl e
selected_rows (iteration_failed e) = inl e
selected_rows (rows rs) = inr rs

-- The statements of one migration, and of undoing one.
abbrev pub up_steps : Migration → List (Step Command)
up_steps m =
    record {
      command = script m.up_sql;
      on_error = reworded (str "failed to execute migration " ∷ int m.version ∷ []);
    }
    ∷ record {
      command = insert_version "migrations" m.version m.name;
      on_error = reworded (str "failed to record migration " ∷ int m.version ∷ []);
    }
    ∷ []

abbrev pub down_steps : Migration → List (Step Command)
down_steps m =
    record {
      command = script m.down_sql;
      on_error = reworded (str "failed to execute down migration " ∷ int m.version ∷ []);
    }
    ∷ record {
      command = delete_version "migrations" m.version;
      on_error = reworded (str "failed to remove migration record " ∷ int m.version ∷ []);
    }
    ∷ []

-- A line of the status: the version, the name, whether it is applied, and the time.
pub record StatusLine : Type 0 where
  pub version : ℤ
  pub name : String
  pub status : String
  pub applied_at : Option Time

-- How the program ends: with the usage, with a fatal message, or by itself.
pub data Exit : Type 0 where
  usage : Exit
  fatal : Message → Exit
  finished : List StatusLine → Exit

module _ {St : Type 0} (db : MigrationServer St) where
  unfoldable pub create_migrations_table : St → Option GoError × St
  create_migrations_table st = db.exec (create_table "migrations") st

  unfoldable pub get_applied_migrations : St → GoError ⊎ List AppliedRow
  get_applied_migrations st = selected_rows (db.select_rows "migrations" st)

  -- The transaction of one migration.
  unfoldable pub apply_one : Migration → St → Option GoError × St
  apply_one m st =
      transaction db.server (reworded (str "failed to begin transaction" ∷ []))
        (reworded (str "failed to commit migration " ∷ int m.version ∷ [])) (up_steps m) st

  -- The loop of `runUpMigrations`
  unfoldable pub run_up : List AppliedRow → List Migration → St → Option GoError × St
  run_up rs [] st = (none, st)
  run_up rs (m ∷ ms) st =
      let skipped = run_up rs ms st in
      let (err, st') = apply_one m st in
      let applied : Option GoError × St = elim err [
        | none ↦ run_up rs ms st'
        | some e ↦ (some e, st')
      ] in
      if is_applied m.version rs then skipped else applied

  run_up_found : GoError ⊎ List AppliedRow → St → Option GoError × St
  run_up_found (inl e) st = (some e, st)
  run_up_found (inr rs) st = run_up rs get_migrations st

  unfoldable pub run_up_migrations : St → Option GoError × St
  unfolding run_up_found
  run_up_migrations st = run_up_found (get_applied_migrations st) st

  -- Once the migration is found.
  run_down : ℤ → Option Migration → List AppliedRow → St → Option GoError × St
  run_down v none rs st =
      (some (plain (str "migration version " ∷ int v ∷ str " not found" ∷ [])), st)
  run_down v (some m) rs st =
      if is_applied v rs
      then transaction db.server (reworded (str "failed to begin transaction" ∷ []))
          (reworded (str "failed to commit down migration " ∷ int m.version ∷ [])) (down_steps m) st
      else (some (plain (str "migration version " ∷ int v ∷ str " is not applied" ∷ [])), st)

  run_down_found : ℤ → GoError ⊎ List AppliedRow → St → Option GoError × St
  unfolding run_down
  run_down_found v (inl e) st = (some e, st)
  run_down_found v (inr rs) st = run_down v (find_migration v get_migrations) rs st

  unfoldable pub run_down_migration : ℤ → St → Option GoError × St
  unfolding run_down_found
  run_down_migration v st = run_down_found v (get_applied_migrations st) st

  -- The query of the time of one version, `none` where it fails.
  module _ (applied_time : ℤ → St → Option Time) where
    status_lines : List Migration → List AppliedRow → St → List StatusLine
    status_lines [] rs st = []
    status_lines (m ∷ ms) rs st =
        record {
          version = m.version;
          name = m.name;
          status = if is_applied m.version rs then "Applied" else "Pending";
          applied_at = if is_applied m.version rs then applied_time m.version st else none;
        }
        ∷ status_lines ms rs st

    unfoldable pub show_status : St → GoError ⊎ List StatusLine
    unfolding status_lines
    show_status st = elim (get_applied_migrations st) [
      | inl e ↦ inl e
      | inr rs ↦ inr (status_lines get_migrations rs st)
    ]

    ended : Message → Option GoError × St → Exit × St
    ended m (none, st) = (finished [], st)
    ended m (some e, st) = (fatal (m ++ (str ": " ∷ error_text e)), st)

    shown : GoError ⊎ List StatusLine → Exit
    shown (inl e) = fatal (str "Failed to show status: " ∷ error_text e)
    shown (inr lines) = finished lines

    down_command : (String → GoError) → List String → St → Exit × St
    unfolding ended
    down_command atoi_error [] st = (fatal (str "Version required for down migration" ∷ []), st)
    down_command atoi_error (v ∷ more) st = elim (atoi (codes v)) [
      | none ↦ (fatal (str "Invalid version: " ∷ error_text (atoi_error v)), st)
      | some n ↦ ended (str "Failed to run down migration" ∷ []) (run_down_migration n st)
    ]

    -- The `switch` of `main`; the text of the error of `strconv.Atoi` is a parameter.
    unfoldable pub run_command : (String → GoError) → String → List String → St → Exit × St
    unfolding ended shown down_command
    run_command atoi_error command rest st =
        if str_eq command "up"
        then ended (str "Failed to run up migrations" ∷ []) (run_up_migrations st)
        else (if str_eq command "down"
            then down_command atoi_error rest st
            else (if str_eq command "status"
                then (shown (show_status st), st)
                else (fatal (str "Unknown command: " ∷ str command ∷ []), st)))

    -- `main`, on the arguments behind the program's name; the connection may fail to open or to answer.
    unfoldable pub main :
        (String → GoError)
        → (String → Option GoError)
        → (St → Option GoError)
        → List String
        → St
        → Exit × St
    main atoi_error open_error ping [] st = (usage, st)
    main atoi_error open_error ping (url ∷ []) st = (usage, st)
    main atoi_error open_error ping (url ∷ command ∷ rest) st = elim (open_error url) [
      | some e ↦ (fatal (str "Failed to connect to database: " ∷ error_text e), st)
      | none ↦ elim (ping st) [
        | some e ↦ (fatal (str "Failed to ping database: " ∷ error_text e), st)
        | none ↦
            let (err, st') = create_migrations_table st in
            elim err [
              | some e ↦ (fatal (str "Failed to create migrations table: " ∷ error_text e), st')
              | none ↦ run_command atoi_error command rest st'
            ]
      ]
    ]
