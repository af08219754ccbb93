-- ===== src/Repository/Samples.antt =====
-- A database server for the tests of the repository (internal/db/db.go): its state is the tables, and it
-- fails on a payment in the currency "bad".
use order_flow.Prelude.{
  arith, ◌≡◌, refl, Option, none, some, [], ◌∷◌, str_eq, inl, inr, if◌then◌else◌, Bool-cases,
}
use order_flow.Errors.{GoError, plain, str}
use order_flow.Database.{Server, CommitLaws}
use order_flow.Repository.{Insertion, insert_order, insert_delivery, insert_payment, insert_item}
use order_flow.Repository.Redelivery.{Tables, insert, InsertLaws}

abbrev pub refused : GoError
refused = plain (str "value too long" ∷ [])

abbrev pub execute : Insertion → Tables → Option GoError × Tables
execute (insert_payment uid p) t =
    if str_eq p.currency "bad" then (some refused, t) else (none, insert (insert_payment uid p) t)
execute (insert_order r) t = (none, insert (insert_order r) t)
execute (insert_delivery uid d) t = (none, insert (insert_delivery uid d) t)
execute (insert_item uid i) t = (none, insert (insert_item uid i) t)

abbrev pub server : Server Tables Insertion
server = record { exec = execute; begin = λ t. none; commit = λ t view. (none, view) }

abbrev pub empty : Tables
empty = record { orders = λ u. none; deliveries = λ u. none; payments = λ u. none; items = λ u. [] }

pub commits : CommitLaws server
commits = record { commit_done = λ st view h. refl; commit_failed = λ st view e h. ground arith }

pub executed : (c : Insertion) (t : Tables) → (execute c t).0 ≡ none → (execute c t).1 ≡ insert c t
executed (insert_order r) t ok = refl
executed (insert_delivery uid d) t ok = refl
executed (insert_payment uid p) t ok = elim (Bool-cases (str_eq p.currency "bad")) [
  | inl h ↦ ground arith
  | inr h ↦ ground arith
]
executed (insert_item uid i) t ok = refl

abbrev pub laws : InsertLaws server
laws = record { tables = λ t. t; inserted = executed }
