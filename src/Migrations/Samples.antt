-- ===== src/Migrations/Samples.antt =====
-- A migration server for the tests: it keeps the rows and the scripts that it ran, and fails on the
-- script "bad".
use order_flow.Prelude.{Option, none, some, List, [], ◌∷◌, ℤ, eqb_ℤ, if◌then◌else◌, String, str_eq}
use order_flow.Errors.{GoError, plain, str}
use order_flow.Migrations.{
  AppliedRow, Command, create_table, script, insert_version, delete_version, MigrationServer, rows,
}

pub record Store : Type 0 where
  pub applied : List AppliedRow
  pub scripts : List String

abbrev pub row : ℤ → String → AppliedRow
row v name = record { version = v; name = name; applied_at = 7 }

abbrev pub without : ℤ → List AppliedRow → List AppliedRow
without v [] = []
without v (r ∷ rs) = let rest = without v rs in if eqb_ℤ r.version v then rest else r ∷ rest

abbrev pub refused : GoError
refused = plain (str "syntax error" ∷ [])

abbrev pub run : Command → Store → Option GoError × Store
run (create_table t) st = (none, st)
run (script sql) st =
    if str_eq sql "bad"
    then (some refused, st)
    else (none, record st { scripts = sql ∷ st.scripts })
run (insert_version t v name) st = (none, record st { applied = row v name ∷ st.applied })
run (delete_version t v) st = (none, record st { applied = without v st.applied })

abbrev pub db : MigrationServer Store
db = record {
  server = record { exec = run; begin = λ st. none; commit = λ st view. (none, view) };
  select_rows = λ table st. rows st.applied;
}

abbrev pub empty : Store
empty = record { applied = []; scripts = [] }
