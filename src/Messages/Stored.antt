-- ===== src/Messages/Stored.antt =====
-- HandleMessage (cmd/service/message_handler.go) over the repository of internal/db/db.go: its retries
-- do not save an order more than once.
use order_flow.Prelude.{
  ◌≡◌, refl, sym, ap, subst, ◌∙◌, arith, ℕ, zero, suc, ◌⊎◌, inl, inr, none, some, pos, Option-cases,
  Time,
}
use order_flow.Model.{Order}
use order_flow.Errors.{GoError, Message, error_text}
use order_flow.Floats.{Floats}
use order_flow.Config.{RetryConfig}
use order_flow.OrderValidator.{validate}
use order_flow.Dlq.{
  Bytes, DlqService, no_op, service, DlqMessage, Result, failed, succeeded, send_to_dlq,
}
use order_flow.Retry.{exhausted}
use order_flow.Retry.Attempts.{world_after, AllFail}
use order_flow.Database.{Server, CommitLaws}
use order_flow.Repository.{Insertion, save_order}
use order_flow.Repository.Saving.{save_order-atomic}
use order_flow.Repository.Redelivery.{Tables, InsertLaws, with_order, save_order-tables}
use order_flow.Messages.{Services, App, process_message, handle_message}
use order_flow.Messages.Attempted.{world_after-suc}
use order_flow.Messages.Handled.{
  handle_message-cases, process_message-failed, process_message-rejected,
}

-- The handler's services with the repository over a database server. The server's state is a part of
-- the world, which SaveOrder changes and the dead letter queue does not. How the server answers depends
-- on all of the world, so that an attempt may fail, as in an outage, and the next one succeed.
pub record Connected {W St : Type 0} (services : Services W) (server : W → Server St Insertion)
    : Type 0 where
  pub database : W → St
  pub same_result :
      (o : Order) (w : W)
      → (services.save_order o w).0 ≡ (save_order (server w) (some o) (database w)).0
  pub same_state :
      (o : Order) (w : W)
      → database (services.save_order o w).1 ≡ (save_order (server w) (some o) (database w)).1
  pub queue_apart :
      (bytes : Bytes) (w : W) → database (services.write_message bytes w).1 ≡ database w

pub Result-cases :
    {A : Type 0} (r : Result A) → ((c : GoError) × (r ≡ failed c)) ⊎ ((a : A) × (r ≡ succeeded a))
Result-cases (failed c) = inl (c, refl)
Result-cases (succeeded o) = inr (o, refl)

module _ {W St : Type 0} (services : Services W) (server : W → Server St Insertion)
    (connected : Connected services server) (commits : (w : W) → CommitLaws (server w)) where
  open services use {unmarshal, check, now, marshal, write_message}
  open connected use {database, same_result, same_state, queue_apart}

  -- An attempt on an order that passes, by what SaveOrder returns.
  attempt_fails :
      (msg : Bytes) (app : App W) (o : Order) (c : GoError)
      → unmarshal msg ≡ succeeded o
      → validate check (some o) ≡ none
      → (services.save_order o app.world).0 ≡ some c
      → (process_message services msg app).1.world ≡ (services.save_order o app.world).1
  unfolding process_message
  attempt_fails msg app o c h v f = rw (h, v, f) refl

  attempt_done :
      (msg : Bytes) (app : App W) (o : Order)
      → unmarshal msg ≡ succeeded o
      → validate check (some o) ≡ none
      → (services.save_order o app.world).0 ≡ none
      → (process_message services msg app).0 ≡ none
  unfolding process_message
  attempt_done msg app o h v f = rw (h, v, f) refl

  attempt_saves :
      (msg : Bytes) (app : App W) (o : Order)
      → unmarshal msg ≡ succeeded o
      → (process_message services msg app).0 ≡ none
      → ((services.save_order o app.world).0 ≡ none)
        × ((process_message services msg app).1.world ≡ (services.save_order o app.world).1)
  unfolding process_message
  attempt_saves msg app o h ok = ground arith

  -- An attempt that fails leaves the database as it is.
  process_message-database :
      (msg : Bytes) (app : App W) (e : GoError)
      → (process_message services msg app).0 ≡ some e
      → database (process_message services msg app).1.world ≡ database app.world
  process_message-database msg app e err = elim (Result-cases (unmarshal msg)) [
    | inl (c, h) ↦ ap (λ r. database r.1.world) (process_message-failed services msg app c h)
    | inr (o, h) ↦ elim (Option-cases (validate check (some o))) [
      | inr (c, v) ↦
          ap (λ r. database r.1.world) (process_message-rejected services msg app o c h v)
      | inl v ↦ elim (Option-cases (services.save_order o app.world).0) [
        | inr (c, f) ↦
            ap database (attempt_fails msg app o c h v f)
            ∙ same_state o app.world
            ∙ (save_order-atomic (server app.world) (commits app.world) o (database app.world)).0 c
                (sym (same_result o app.world) ∙ f)
        | inl f ↦ let done = attempt_done msg app o h v f in ground arith
      ]
    ]
  ]

  world_after-database :
      (msg : Bytes) (k : ℕ) (app : App W)
      → AllFail (process_message services msg) k app
      → database (world_after (process_message services msg) k app).world ≡ database app.world
  unfolding world_after
  world_after-database msg zero app fails = refl
  world_after-database msg (suc k) app ((e, h), fails) =
      world_after-database msg k (process_message services msg app).1 fails
      ∙ process_message-database msg app e h

  pub send_to_dlq-database :
      (dlq : DlqService) (t : Time) (msg : Bytes) (reason : Message) (w : W)
      → database (send_to_dlq marshal write_message dlq t msg reason w).1 ≡ database w
  unfolding send_to_dlq
  send_to_dlq-database no_op t msg reason w = refl
  send_to_dlq-database (service cfg) t msg reason w = elim (Result-cases (marshal m)) [
    | inl (c, h) ↦ rw h refl
    | inr (bytes, h) ↦ rw h (queue_apart bytes w)
  ]
    where
      m : DlqMessage
      m = record { original_message = msg; reason = reason; timestamp = t; retry_count = pos 0 }

  module _ (tables : St → Tables) (laws : (w : W) → InsertLaws (server w))
      (reads : (w : W) → (laws w).tables ≡ tables)
      (committed : (w : W) (st view : St) → ((server w).commit st view).0 ≡ none) where
    -- A SaveOrder that returns nil has made the tables with the order.
    save_order-stored :
        (o : Order) (w : W)
        → (services.save_order o w).0 ≡ none
        → tables (database (services.save_order o w).1) ≡ with_order o (tables (database w))
    save_order-stored o w ok =
        subst (λ t. t (database (services.save_order o w).1) ≡ with_order o (t (database w)))
          (reads w)
          (ap (laws w).tables (same_state o w)
            ∙ save_order-tables (server w) (laws w) (commits w) (committed w) o (database w)
                (sym (same_result o w) ∙ ok))

    -- Where commits succeed, whatever attempts fail, and whether or not a later one succeeds: after HandleMessage has returned nil for a
    -- message that is an order, the tables are those with the order saved once; after it has
    -- returned an error the database is as it was. The maximum of attempts is positive, an
    -- insertion that succeeds does to the tables what its SQL says, and the dead letter queue does
    -- not touch the database.
    pub handle_message-stored :
        (fl : Floats) (cfg : RetryConfig fl.Float) (dlq : DlqService) (msg : Bytes) (n : ℕ)
        (app : App W) (o : Order)
        → cfg.max_attempts ≡ pos (suc n)
        → unmarshal msg ≡ succeeded o
        → let (err, app') = handle_message services fl cfg dlq msg app in
          (err ≡ none → tables (database app'.world) ≡ with_order o (tables (database app.world)))
          × ((e : GoError) → err ≡ some e → database app'.world ≡ database app.world)
    handle_message-stored fl cfg dlq msg n app o eq h =
        elim (handle_message-cases services fl cfg dlq msg n app eq) [
          | inl (k, le, fails, good, at) ↦
              let last = world_after (process_message services msg) k app in
              let before = world_after-database msg k app fails in
              let (saved, reached) = attempt_saves msg last o h good in
              (
                λ ok.
                    ap (λ r. tables (database r.1.world)) at
                    ∙ ap (λ a. tables (database a.world))
                        (world_after-suc (process_message services msg) k app)
                    ∙ ap (λ w. tables (database w)) reached
                    ∙ save_order-stored o last.world saved
                    ∙ ap (λ st. with_order o (tables st)) before,
                λ e err. let bad = sym (ap (λ r. r.0) at) ∙ err in ground arith,
              )
          | inr (c, fails, err, at) ↦
              let last = world_after (process_message services msg) n app in
              let tried = world_after (process_message services msg) (suc n) app in
              let gone = exhausted cfg.max_attempts c in
              (
                λ ok. let bad = sym ok ∙ ap (λ r. r.0) at in ground arith,
                λ e failure.
                    ap (λ r. database r.1.world) at
                    ∙ send_to_dlq-database dlq (now tried.world) msg (error_text gone) tried.world
                    ∙ ap (λ a. database a.world)
                        (world_after-suc (process_message services msg) n app)
                    ∙ process_message-database msg last c err
                    ∙ world_after-database msg n app fails,
              )
        ]
