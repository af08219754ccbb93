-- ===== src/Repository/Loading.antt =====
-- GetOrderByUID and LoadAllOrders (internal/db/db.go) read what was saved, and LoadAllOrders leaves no
-- row out.
use order_flow.Prelude.{
  ◌≡◌, refl, arith, Option, none, some, List, [], ◌∷◌, map, ◌⊎◌, inl, inr, String,
}
use order_flow.Model.{Order, Delivery, Payment, Item}
use order_flow.Errors.{GoError}
use order_flow.Repository.{
  order_row, FetchedRow, Decoding, ScannedRow, load_row, load_rows, load_all_orders,
}

-- How the database encodes the joined rows as JSON (`row_to_json`, `json_agg`), which the service's
-- decoding reads back.
pub record Encoding {Json : Type 0} (decoding : Decoding Json) : Type 0 where
  pub write_delivery : Delivery → Json
  pub write_payment : Payment → Json
  pub write_items : List Item → Json
  pub read-delivery : (d : Delivery) → decoding.read_delivery (write_delivery d) ≡ inr d
  pub read-payment : (p : Payment) → decoding.read_payment (write_payment p) ≡ inr p
  pub read-items : (is : List Item) → decoding.read_items (write_items is) ≡ inr is

Result-cases :
    {A : Type 0} (r : GoError ⊎ A) → ((e : GoError) × (r ≡ inl e)) ⊎ ((a : A) × (r ≡ inr a))
Result-cases (inl e) = inl (e, refl)
Result-cases (inr a) = inr (a, refl)

module _ {Json : Type 0} (decoding : Decoding Json) where
  -- Where LoadAllOrders returns orders, no row failed, and neither did the iteration: they are the
  -- orders of all rows that were read, in their order.
  load_all_orders_complete :
      (scanned : List (ScannedRow Json)) (iteration : Option GoError) (os : List Order)
      → load_all_orders decoding (inr (scanned, iteration)) ≡ inr os
      → (iteration ≡ none) × (map (load_row decoding) scanned ≡ map inr os)
  unfolding load_all_orders load_rows
  load_all_orders_complete [] none os ok = ground arith
  load_all_orders_complete [] (some e) os ok = ground arith
  load_all_orders_complete (s ∷ scanned) iteration os ok =
      elim (Result-cases (load_row decoding s)) [
        | inl (e, h) ↦ ground arith
        | inr (o, h) ↦ elim (Result-cases (load_rows decoding scanned iteration)) [
          | inl (e, h') ↦ ground arith
          | inr (rest, h') ↦
              let ih = load_all_orders_complete scanned iteration rest h' in ground arith
        ]
      ]

  module _ (encoding : Encoding decoding) where
    open encoding use {
      write_delivery, write_payment, write_items, read-delivery, read-payment, read-items,
    }

    -- The row of an order, with a text for its date.
    abbrev pub row_of : Order → String → FetchedRow Json
    row_of o text = record {
      columns = order_row o;
      date_text = text;
      delivery_json = write_delivery o.delivery;
      payment_json = write_payment o.payment;
      items_json = write_items o.items;
    }
