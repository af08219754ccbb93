-- ===== src/Repository/Redelivery.antt =====
-- What the transaction of SaveOrder (internal/db/db.go) makes of the tables, also for an order that it
-- has saved before, as when a message is delivered again.
use mathlib.Core.List.{append_assoc, append-nil}
use order_flow.Prelude.{
  ◌≡◌, sym, ap, ◌∙◌, inl, inr, Option, none, some, List, [], ◌∷◌, ◌++◌, arith, String, str_eq,
  eq_iff, if◌then◌else◌,
}
use order_flow.Model.{Order, Delivery, Payment, Item}
use order_flow.Database.{Server, CommitLaws, run_steps, run_steps-cons}
use order_flow.Repository.{
  OrderRow, Insertion, insert_order, insert_delivery, insert_payment, insert_item, order_row,
  inserting, item_steps, save_steps, save_order,
}
use order_flow.Repository.Saving.{save_order-atomic}

-- The tables by the columns that identify a row: orders and deliveries by the UID, payments by the
-- transaction, with the UID that they are for. The items of a UID have no such column.
pub record Tables : Type 0 where
  pub orders : String → Option OrderRow
  pub deliveries : String → Option Delivery
  pub payments : String → Option (String × Payment)
  pub items : String → List Item

-- `ON CONFLICT DO NOTHING`: a row that is there stays.
abbrev pub put_new {ℓ} : {A : Type ℓ} → String → A → (String → Option A) → String → Option A
put_new key a rows u = elim (rows u) [
  | some old ↦ some old
  | none ↦ if str_eq key u then some a else none
]

abbrev pub add_items : String → List Item → (String → List Item) → String → List Item
add_items uid is rows u = if str_eq uid u then rows u ++ is else rows u

-- What an insertion does to the tables.
unfoldable pub insert : Insertion → Tables → Tables
insert (insert_order r) t = record t { orders = put_new r.order_uid r t.orders }
insert (insert_delivery uid d) t = record t { deliveries = put_new uid d t.deliveries }
insert (insert_payment uid p) t = record t { payments = put_new p.transaction (uid, p) t.payments }
insert (insert_item uid i) t = record t { items = add_items uid (i ∷ []) t.items }

-- The tables with an order.
unfoldable pub with_order : Order → Tables → Tables
with_order o t = record {
  orders = put_new o.order_uid (order_row o) t.orders;
  deliveries = put_new o.order_uid o.delivery t.deliveries;
  payments = put_new o.payment.transaction (o.order_uid, o.payment) t.payments;
  items = add_items o.order_uid o.items t.items;
}

-- The server's tables, and the documented effect of an insertion that succeeds.
pub record InsertLaws {St : Type 0} (server : Server St Insertion) : Type 0 where
  pub tables : St → Tables
  pub inserted :
      (c : Insertion) (st : St)
      → (server.exec c st).0 ≡ none
      → tables (server.exec c st).1 ≡ insert c (tables st)

add_items-nil : (uid : String) (rows : String → List Item) → add_items uid [] rows ≡ rows
add_items-nil uid rows = λ i u. nothing_added u i
  where
    nothing_added : (u : String) → add_items uid [] rows u ≡ rows u
    nothing_added u = ground (arith, append-nil (rows u))

add_items-append :
    (uid : String) (xs ys : List Item) (rows : String → List Item)
    → add_items uid ys (add_items uid xs rows) ≡ add_items uid (xs ++ ys) rows
add_items-append uid xs ys rows = λ i u. both u i
  where
    both :
        (u : String) → add_items uid ys (add_items uid xs rows) u ≡ add_items uid (xs ++ ys) rows u
    both u = ground (arith, append_assoc (rows u) xs ys)

added :
    (uid : String) (is : List Item) (rows : String → List Item)
    → add_items uid is rows uid ≡ rows uid ++ is
added uid is rows = ground (arith, eq_iff uid uid)

put_new-again {ℓ} :
    {A : Type ℓ} (key : String) (a : A) (rows : String → Option A) (u : String)
    → put_new key a (put_new key a rows) u ≡ put_new key a rows u
put_new-again key a rows u = ground arith

module _ {St : Type 0} (server : Server St Insertion) (laws : InsertLaws server) where
  open laws use {tables, inserted}

  with_items : String → List Item → Tables → Tables
  with_items uid is t = record t { items = add_items uid is t.items }

  item_steps-tables :
      (uid : String) (is : List Item) (st : St)
      → (run_steps server (item_steps uid is) st).0 ≡ none
      → tables (run_steps server (item_steps uid is) st).1 ≡ with_items uid is (tables st)
  unfolding item_steps run_steps with_items insert
  item_steps-tables uid [] st ok =
      ap (λ f. record (tables st) { items = f }) (sym (add_items-nil uid (tables st).items))
  item_steps-tables uid (i ∷ is) st ok =
      let c = insert_item uid i in
      let (h, at) = run_steps-cons server (inserting c) (item_steps uid is) st ok in
      ap (λ r. tables r.1) at
      ∙ item_steps-tables uid is (server.exec c st).1 (sym (ap (λ r. r.0) at) ∙ ok)
      ∙ ap (with_items uid is) (inserted c st h)
      ∙ ap (λ f. record (tables st) { items = f })
          (add_items-append uid (i ∷ []) is (tables st).items)

  -- The steps of an order make the tables with it.
  save_steps-tables :
      (o : Order) (st : St)
      → (run_steps server (save_steps o) st).0 ≡ none
      → tables (run_steps server (save_steps o) st).1 ≡ with_order o (tables st)
  unfolding save_steps with_order insert with_items order_row
  save_steps-tables o st ok =
      let c = insert_order (order_row o) in
      let d = insert_delivery o.order_uid o.delivery in
      let p = insert_payment o.order_uid o.payment in
      let last = item_steps o.order_uid o.items in
      let more = inserting p ∷ last in
      let (ran_c, at_c) = run_steps-cons server (inserting c) (inserting d ∷ more) st ok in
      let st_c = (server.exec c st).1 in
      let (ran_d, at_d) =
        run_steps-cons server (inserting d) more st_c (sym (ap (λ r. r.0) at_c) ∙ ok) in
      let st_d = (server.exec d st_c).1 in
      let at_cd = at_c ∙ at_d in
      let (ran_p, at_p) =
        run_steps-cons server (inserting p) last st_d (sym (ap (λ r. r.0) at_cd) ∙ ok) in
      let st_p = (server.exec p st_d).1 in
      let at = at_cd ∙ at_p in
      ap (λ r. tables r.1) at
      ∙ item_steps-tables o.order_uid o.items st_p (sym (ap (λ r. r.0) at) ∙ ok)
      ∙ ap (with_items o.order_uid o.items) (
          inserted p st_d ran_p
          ∙ ap (insert p) (inserted d st_c ran_d ∙ ap (insert d) (inserted c st ran_c)))

  module _ (commits : CommitLaws server)
      (committed : (st view : St) → (server.commit st view).0 ≡ none) where
    -- After a SaveOrder that returns nil, where commits succeed, the tables are the ones with the order.
    pub save_order-tables :
        (o : Order) (st : St)
        → (save_order server (some o) st).0 ≡ none
        → tables (save_order server (some o) st).1 ≡ with_order o (tables st)
    save_order-tables o st ok =
        let saved = (save_order-atomic server commits o st).1 ok in
        let view = (run_steps server (save_steps o) st).1 in
        elim saved.outcome [
          | inl (done, at) ↦ ap tables at ∙ save_steps-tables o st saved.all_ran
          | inr ((e, failed), at) ↦ let done = committed st view in ground arith
        ]

    -- An order that is saved twice, both times with the result nil, as when its message is
    -- delivered again, where commits succeed and an insertion that succeeds does to the tables what
    -- its SQL says: its rows of the tables orders, delivery and payment are as after the first
    -- time, but each of its items is there once more.
    pub save_order-twice :
        (o : Order) (st : St)
        → let st1 = (save_order server (some o) st).1 in
          let st2 = (save_order server (some o) st1).1 in
          (save_order server (some o) st).0 ≡ none
          → (save_order server (some o) st1).0 ≡ none
          → ((u : String) → (tables st2).orders u ≡ (tables st1).orders u)
            × ((u : String) → (tables st2).deliveries u ≡ (tables st1).deliveries u)
            × ((t : String) → (tables st2).payments t ≡ (tables st1).payments t)
            × ((tables st2).items o.order_uid
                ≡ (tables st).items o.order_uid ++ (o.items ++ o.items))
    unfolding with_order
    save_order-twice o st ok1 ok2 =
        let first = save_order-tables o st ok1 in
        let st1 = (save_order server (some o) st).1 in
        let second = save_order-tables o st1 ok2 in
        let again = second ∙ ap (with_order o) first in
        (
          λ u.
              ap (λ t. t.orders u) again
              ∙ put_new-again o.order_uid (order_row o) (tables st).orders u
              ∙ sym (ap (λ t. t.orders u) first),
          λ u.
              ap (λ t. t.deliveries u) again
              ∙ put_new-again o.order_uid o.delivery (tables st).deliveries u
              ∙ sym (ap (λ t. t.deliveries u) first),
          λ x.
              ap (λ t. t.payments x) again
              ∙ put_new-again o.payment.transaction (o.order_uid, o.payment) (tables st).payments x
              ∙ sym (ap (λ t. t.payments x) first),
          ap (λ t. t.items o.order_uid) again
              ∙ ap (λ f. f o.order_uid)
                  (add_items-append o.order_uid o.items o.items (tables st).items)
              ∙ added o.order_uid (o.items ++ o.items) (tables st).items,
        )
