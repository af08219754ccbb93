-- ===== src/Repository/Tests.antt =====
-- Runs of the repository (internal/db/db.go), and its theorems at concrete inputs.
use order_flow.Prelude.{
  ◌≡◌, refl, Option, none, some, List, [], ◌∷◌, ◌++◌, String, str_eq, inl, inr, ◌⊎◌, if◌then◌else◌,
  Time,
}
use order_flow.Model.{Order, Delivery, Payment, Item}
use order_flow.Errors.{GoError, plain, str}
use order_flow.Database.{run_steps}
use order_flow.Samples.{sample_order, sample_item}
use order_flow.Repository.{
  save_steps, item_steps, order_row, close_transaction, save_order, Decoding, ScannedRow, load_row,
  load_rows, load_all_orders, get_order_by_uid, assemble,
}
use order_flow.Repository.Saving.{Saved, save_order-atomic}
use order_flow.Repository.Redelivery.{insert, save_order-twice}
use order_flow.Repository.Loading.{Encoding, row_of}
use order_flow.Repository.Samples.{refused, server, empty, commits, laws}

program : Unit {0}
unfolding save_order close_transaction save_steps item_steps order_row run_steps insert
    get_order_by_uid load_all_orders load_rows load_row assemble
program = tt

abbrev order : Order
order = sample_order "b563feb7b2b84b6test"

abbrev refused_order : Order
refused_order = record order { payment = record order.payment { currency = "bad" } }

saved : ((save_order server (some order) empty).1).items "b563feb7b2b84b6test" ≡ sample_item ∷ []
unfolding program
saved = refl

refused_whole : save_order server (some refused_order) empty ≡ (some refused, empty)
unfolding program
refused_whole = refl

save_order-atomic_example :
    ((e : GoError)
      → (save_order server (some refused_order) empty).0 ≡ some e
      → (save_order server (some refused_order) empty).1 ≡ empty)
    × ((save_order server (some refused_order) empty).0 ≡ none
        → Saved server commits refused_order empty (save_order server (some refused_order) empty).1)
save_order-atomic_example = save_order-atomic server commits refused_order empty

once : (save_order server (some order) empty).0 ≡ none
unfolding program
once = refl

again : (save_order server (some order) (save_order server (some order) empty).1).0 ≡ none
unfolding program
again = refl

save_order-twice_example :
    let st1 = (save_order server (some order) empty).1 in
    let st2 = (save_order server (some order) st1).1 in
    ((u : String) → st2.orders u ≡ st1.orders u)
    × ((u : String) → st2.deliveries u ≡ st1.deliveries u)
    × ((t : String) → st2.payments t ≡ st1.payments t)
    × (st2.items order.order_uid ≡ [] ++ (order.items ++ order.items))
save_order-twice_example =
    save_order-twice server laws commits (λ st view. refl) order empty once again

-- JSON that keeps the values.
data Json : Type 0 where
  json_delivery : Delivery → Json
  json_payment : Payment → Json
  json_items : List Item → Json

abbrev malformed : GoError
malformed = plain (str "unexpected end of JSON input" ∷ [])

abbrev to_delivery : Json → GoError ⊎ Delivery
to_delivery (json_delivery d) = inr d
to_delivery (json_payment p) = inl malformed
to_delivery (json_items is) = inl malformed

abbrev to_payment : Json → GoError ⊎ Payment
to_payment (json_delivery d) = inl malformed
to_payment (json_payment p) = inr p
to_payment (json_items is) = inl malformed

abbrev to_items : Json → GoError ⊎ List Item
to_items (json_delivery d) = inl malformed
to_items (json_payment p) = inl malformed
to_items (json_items is) = inr is

-- A PostgreSQL timestamp has a space where RFC 3339 has a T.
abbrev to_date : String → Option Time
to_date text = if str_eq text "2021-11-26T06:22:19Z" then some 5 else none

abbrev decoding : Decoding Json
decoding = record {
  parse_date = to_date;
  read_delivery = to_delivery;
  read_payment = to_payment;
  read_items = to_items;
}

abbrev encoding : Encoding decoding
encoding = record {
  write_delivery = json_delivery;
  write_payment = json_payment;
  write_items = json_items;
  read-delivery = λ d. refl;
  read-payment = λ p. refl;
  read-items = λ is. refl;
}

abbrev two_rows : List (ScannedRow Json)
two_rows =
    inr (row_of decoding encoding order "", 1) ∷ inr (row_of decoding encoding order "", 2) ∷ []

abbrev two_orders : List Order
two_orders = record order { date_created = 1 } ∷ record order { date_created = 2 } ∷ []

loaded : load_all_orders decoding (inr (two_rows, none)) ≡ inr two_orders
unfolding program
loaded = refl
