-- ===== src/Consumer/Stored.antt =====
-- From the topic to the database: what the consumer (internal/kafka/consumer.go), the message handler
-- (cmd/service/message_handler.go) and the repository (internal/db/db.go) leave in the tables together.
use order_flow.Prelude.{
  ◌≡◌, refl, sym, ap, ◌∙◌, inl, inr, ℕ, suc, Option, none, some, List, [], ◌∷◌, pos, Option-cases,
}
use order_flow.Model.{Order}
use order_flow.Errors.{GoError, str, annotated, error_text}
use order_flow.Floats.{Floats}
use order_flow.Config.{RetryConfig}
use order_flow.Dlq.{Bytes, DlqService, Result, failed, succeeded}
use order_flow.Retry.{exhausted}
use order_flow.Database.{Server, CommitLaws}
use order_flow.Repository.{Insertion}
use order_flow.Repository.Redelivery.{Tables, InsertLaws, with_order}
use order_flow.Messages.{Services, App, handle_message, handle_messages}
use order_flow.Messages.Handled.{handle_message-rejected}
use order_flow.Messages.Stored.{
  Connected, Result-cases, send_to_dlq-database, handle_message-stored,
}
use order_flow.Consumer.{Read, start_kafka_consumer}
use order_flow.Consumer.Handling.{before_done, start_kafka_consumer-eq}

-- The tables with the orders, one after the other.
abbrev pub with_orders : List Order → Tables → Tables
with_orders [] t = t
with_orders (o ∷ os) t = with_orders os (with_order o t)

abbrev kept_order : Result Order → Option GoError → List Order → List Order
kept_order (failed c) err os = os
kept_order (succeeded o) (some e) os = os
kept_order (succeeded o) none os = o ∷ os

module _ {W : Type 0} (services : Services W) (fl : Floats) (cfg : RetryConfig fl.Float)
    (dlq : DlqService) where
  -- The orders of the messages that HandleMessage returns nil for.
  unfoldable pub handled_orders : List Bytes → App W → List Order
  handled_orders [] app = []
  handled_orders (msg ∷ msgs) app =
      let (err, app') = handle_message services fl cfg dlq msg app in
      kept_order (services.unmarshal msg) err (handled_orders msgs app')

module _ {W St : Type 0} (services : Services W) (server : W → Server St Insertion)
    (connected : Connected services server) (commits : (w : W) → CommitLaws (server w))
    (tables : St → Tables) (laws : (w : W) → InsertLaws (server w))
    (reads_tables : (w : W) → (laws w).tables ≡ tables)
    (committed : (w : W) (st view : St) → ((server w).commit st view).0 ≡ none) (fl : Floats)
    (cfg : RetryConfig fl.Float) (dlq : DlqService) where
  open services use {unmarshal}
  open connected use {database}

  -- A message that is no order leaves the database as it is.
  not_read :
      (msg : Bytes) (n : ℕ) (app : App W) (c : GoError)
      → cfg.max_attempts ≡ pos (suc n)
      → unmarshal msg ≡ failed c
      → database (handle_message services fl cfg dlq msg app).1.world ≡ database app.world
  not_read msg n app c eq h =
      let e = annotated (str "failed to parse JSON: " ∷ []) c in
      ap (λ r. database r.1.world)
        (handle_message-rejected services fl cfg dlq msg n app e eq (inl (c, h, refl)))
      ∙ send_to_dlq-database services server connected commits dlq (services.now app.world) msg
          (error_text (exhausted cfg.max_attempts e)) app.world

  one_message :
      (msg : Bytes) (msgs : List Bytes) (n : ℕ) (app : App W)
      → cfg.max_attempts ≡ pos (suc n)
      → let (err, app') = handle_message services fl cfg dlq msg app in
        with_orders
          (kept_order (unmarshal msg) err (handled_orders services fl cfg dlq msgs app'))
          (tables (database app.world))
        ≡ with_orders (handled_orders services fl cfg dlq msgs app') (tables (database app'.world))
  one_message msg msgs n app eq =
      let (err, app') = handle_message services fl cfg dlq msg app in
      let os = handled_orders services fl cfg dlq msgs app' in
      elim (Result-cases (unmarshal msg)) [
        | inl (c, h) ↦
            rw h (ap (λ st. with_orders os (tables st)) (sym (not_read msg n app c eq h)))
        | inr (o, h) ↦
            let (saved, unchanged) =
              handle_message-stored services server connected commits tables laws reads_tables
                committed fl cfg dlq msg n app o eq h in
            elim (Option-cases err) [
              | inl ok ↦ rw (h, ok) (ap (with_orders os) (sym (saved ok)))
              | inr (e, f) ↦ rw (h, f) (ap (λ st. with_orders os (tables st)) (sym (unchanged e f)))
            ]
      ]

  handle_messages-tables :
      (msgs : List Bytes) (n : ℕ) (app : App W)
      → cfg.max_attempts ≡ pos (suc n)
      → tables (database (handle_messages services fl cfg dlq msgs app).world)
        ≡ with_orders (handled_orders services fl cfg dlq msgs app) (tables (database app.world))
  unfolding handle_messages handled_orders
  handle_messages-tables [] n app eq = refl
  handle_messages-tables (msg ∷ msgs) n app eq =
      handle_messages-tables msgs n (handle_message services fl cfg dlq msg app).1 eq
      ∙ sym (one_message msg msgs n app eq)

  -- Over any reads, the consumer leaves in the tables, where commits succeed, exactly what the
  -- orders of the messages that are handled without an error make of them, saved once for each such
  -- message and in the order of the messages: neither a retry nor a message that fails leaves
  -- anything. The maximum of attempts is positive, an insertion that succeeds does to the tables
  -- what its SQL says, and the dead letter queue does not touch the database.
  pub start_kafka_consumer-tables :
      (reads : List Read) (n : ℕ) (app : App W)
      → cfg.max_attempts ≡ pos (suc n)
      → tables (database (start_kafka_consumer services fl cfg dlq reads app).1.world)
        ≡ with_orders
            (handled_orders services fl cfg dlq (before_done reads) app)
            (tables (database app.world))
  start_kafka_consumer-tables reads n app eq =
      ap (λ r. tables (database r.1.world)) (start_kafka_consumer-eq services fl cfg dlq reads app)
      ∙ handle_messages-tables (before_done reads) n app eq
