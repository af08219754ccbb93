-- ===== src/Repository.antt =====
-- The order repository of internal/db/db.go. The server is a parameter; a statement is the kind of row
-- that the SQL text inserts, with the values that it is given. `none` is a nil order.
pub mod Saving
pub mod Redelivery
pub mod Loading
pub mod Samples
mod Tests
use order_flow.Prelude.{
  ◌≡◌, Option, none, some, List, [], ◌∷◌, ◌++◌, map, ℤ, Time, zero_time, String, str_eq,
  if◌then◌else◌, ◌⊎◌, inl, inr,
}
use order_flow.Model.{Order, Delivery, Payment, Item}
use order_flow.Errors.{GoError, plain, str}
use order_flow.Database.{Server, Step, run_steps}

-- The columns of the table `orders`.
pub record OrderRow : Type 0 where
  pub order_uid : String
  pub track_number : String
  pub entry : String
  pub locale : String
  pub internal_signature : String
  pub customer_id : String
  pub delivery_service : String
  pub shard_key : String
  pub sm_id : ℤ
  pub date_created : Time
  pub oof_shard : String

-- The insertions. The first three do nothing on a conflict of the UID, of the UID, and of the
-- transaction; an item has no key to conflict with.
pub data Insertion : Type 0 where
  insert_order : OrderRow → Insertion
  insert_delivery : String → Delivery → Insertion
  insert_payment : String → Payment → Insertion
  insert_item : String → Item → Insertion

unfoldable pub order_row : Order → OrderRow
order_row o = record {
  order_uid = o.order_uid;
  track_number = o.track_number;
  entry = o.entry;
  locale = o.locale;
  internal_signature = o.internal_signature;
  customer_id = o.customer_id;
  delivery_service = o.delivery_service;
  shard_key = o.shard_key;
  sm_id = o.sm_id;
  date_created = o.date_created;
  oof_shard = o.oof_shard;
}

-- A failed statement's error is returned as it is.
abbrev pub inserting : Insertion → Step Insertion
inserting c = record { command = c; on_error = λ e. e }

unfoldable pub item_steps : String → List Item → List (Step Insertion)
item_steps uid [] = []
item_steps uid (i ∷ is) = inserting (insert_item uid i) ∷ item_steps uid is

unfoldable pub save_steps : Order → List (Step Insertion)
save_steps o =
    inserting (insert_order (order_row o))
    ∷ inserting (insert_delivery o.order_uid o.delivery)
    ∷ inserting (insert_payment o.order_uid o.payment)
    ∷ item_steps o.order_uid o.items

module _ {St : Type 0} (server : Server St Insertion) where
  open server use {exec, begin, commit}

  -- The deferred function: a rollback where a statement failed, and a commit otherwise, whose error is
  -- dropped.
  unfoldable pub close_transaction : St → Option GoError → St → Option GoError × St
  close_transaction st (some e) view = (some e, st)
  close_transaction st none view = let (dropped, st') = commit st view in (none, st')

  save_begun : Order → Option GoError → St → Option GoError × St
  save_begun o (some e) st = (some e, st)
  save_begun o none st =
      let (err, view) = run_steps server (save_steps o) st in close_transaction st err view

  -- `SaveOrder`
  unfoldable pub save_order : Option Order → St → Option GoError × St
  unfolding save_begun
  save_order none st = (some (plain (str "order is nil" ∷ [])), st)
  save_order (some o) st =
      if str_eq o.order_uid ""
      then (some (plain (str "order uid is empty" ∷ [])), st)
      else save_begun o (begin st) st

-- A row of the queries: the columns of the order, with the text of its date, and the JSON of the rest.
pub record FetchedRow (Json : Type 0) : Type 0 where
  pub columns : OrderRow
  pub date_text : String
  pub delivery_json : Json
  pub payment_json : Json
  pub items_json : Json

-- How the service reads a row: `time.Parse` with the RFC 3339 layout, and `json.Unmarshal` of the parts.
pub record Decoding (Json : Type 0) : Type 0 where
  pub parse_date : String → Option Time
  pub read_delivery : Json → GoError ⊎ Delivery
  pub read_payment : Json → GoError ⊎ Payment
  pub read_items : Json → GoError ⊎ List Item

abbrev with_parts : OrderRow → Time → Delivery → Payment → List Item → Order
with_parts r date d p is = record {
  order_uid = r.order_uid;
  track_number = r.track_number;
  entry = r.entry;
  delivery = d;
  payment = p;
  items = is;
  locale = r.locale;
  internal_signature = r.internal_signature;
  customer_id = r.customer_id;
  delivery_service = r.delivery_service;
  shard_key = r.shard_key;
  sm_id = r.sm_id;
  date_created = date;
  oof_shard = r.oof_shard;
}

infixl 5 ◌>>=◌
abbrev ◌>>=◌ : {A B : Type 0} → GoError ⊎ A → (A → GoError ⊎ B) → GoError ⊎ B
inl e >>= f = inl e
inr a >>= f = f a

-- A date that does not parse leaves Go's zero time, and is no error.
abbrev pub date_or_zero : Option Time → Time
date_or_zero none = zero_time
date_or_zero (some t) = t

-- A row that the loop of LoadAllOrders reads: its `Scan` also reads the date.
abbrev pub ScannedRow : Type 0 → Type 0
ScannedRow Json = GoError ⊎ FetchedRow Json × Time

module _ {Json : Type 0} (decoding : Decoding Json) where
  open decoding use {parse_date, read_delivery, read_payment, read_items}

  -- The order of a row, with its date.
  unfoldable pub assemble : FetchedRow Json → Time → GoError ⊎ Order
  assemble r date = do
    d ← read_delivery r.delivery_json
    p ← read_payment r.payment_json
    is ← read_items r.items_json
    inr (with_parts r.columns date d p is)

  -- `GetOrderByUID`, on the outcome of its query
  unfoldable pub get_order_by_uid : GoError ⊎ FetchedRow Json → GoError ⊎ Order
  get_order_by_uid found = do r ← found; assemble r (date_or_zero (parse_date r.date_text))

  unfoldable pub load_row : ScannedRow Json → GoError ⊎ Order
  load_row scanned = do (r, date) ← scanned; assemble r date

  -- The rows up to the first that fails, and then the error of the iteration.
  unfoldable pub load_rows : List (ScannedRow Json) → Option GoError → GoError ⊎ List Order
  load_rows [] none = inr []
  load_rows [] (some e) = inl e
  load_rows (s ∷ rest) iteration = do o ← load_row s; os ← load_rows rest iteration; inr (o ∷ os)

  -- `LoadAllOrders`, on the outcome of its query
  unfoldable pub load_all_orders :
      GoError ⊎ List (ScannedRow Json) × Option GoError → GoError ⊎ List Order
  load_all_orders queried = do (scanned, iteration) ← queried; load_rows scanned iteration
