-- ===== src/Messages.antt =====
-- The message handler of cmd/service/message_handler.go. The repository, the JSON decoding, the clock
-- and the Kafka writer are parameters that act on a world.
pub mod Attempted
pub mod Handled
pub mod Stored
pub mod Samples
mod Tests
use order_flow.Prelude.{ℕ, ◌≡◌, Option, none, some, List, [], ◌∷◌, Time}
use order_flow.Model.{Order}
use order_flow.Errors.{GoError, str, annotated, error_text}
use order_flow.Floats.{Floats}
use order_flow.Config.{RetryConfig}
use order_flow.Cache.{OrderCache, set}
use order_flow.OrderValidator.{StructResult, validate}
use order_flow.Dlq.{Bytes, DlqMessage, DlqService, Result, failed, succeeded, send_to_dlq}
use order_flow.Retry.{Ran, execute_with_retry}

-- What the handler calls outside of the modelled code.
pub record Services (W : Type 0) : Type 0 where
  pub unmarshal : Bytes → Result Order
  pub check : Order → StructResult
  pub save_order : Order → W → Option GoError × W
  pub now : W → Time
  pub marshal : DlqMessage → Result Bytes
  pub write_message : Bytes → W → Option GoError × W

-- The application, as far as the handler changes it.
pub record App (W : Type 0) : Type 0 where
  pub cache : OrderCache
  pub world : W

module _ {W : Type 0} (services : Services W) where
  open services use {unmarshal, check, save_order, now, marshal, write_message}

  -- After the call of SaveOrder.
  cache_saved : Order → App W → Option GoError → W → Option GoError × App W
  cache_saved o app (some e) w' = (
    some (annotated (str "failed to save order " ∷ str o.order_uid ∷ str ": " ∷ []) e),
    record app { world = w' },
  )
  cache_saved o app none w' = (none, record { cache = set (now w') (some o) app.cache; world = w' })

  -- After the call of Validate.
  save_validated : Order → App W → Option GoError → Option GoError × App W
  unfolding cache_saved
  save_validated o app (some e) = (some (annotated (str "order validation failed: " ∷ []) e), app)
  save_validated o app none = let (err, w') = save_order o app.world in cache_saved o app err w'

  process_parsed : Result Order → App W → Option GoError × App W
  unfolding save_validated
  process_parsed (failed e) app = (some (annotated (str "failed to parse JSON: " ∷ []) e), app)
  process_parsed (succeeded o) app = save_validated o app (validate check (some o))

  -- The function `processMessage`
  unfoldable pub process_message : Bytes → App W → Option GoError × App W
  unfolding process_parsed
  process_message msg app = process_parsed (unmarshal msg) app

  -- After the attempts; the error of SendToDLQ is only logged.
  finish : DlqService → Bytes → Option GoError → App W → Option GoError × App W
  finish dlq msg none app = (none, app)
  finish dlq msg (some e) app =
      let (dlq_err, w') =
        send_to_dlq marshal write_message dlq (now app.world) msg (error_text e) app.world in
      (some e, record app { world = w' })

  -- `HandleMessage`
  unfoldable pub handle_message :
      (fl : Floats) → RetryConfig fl.Float → DlqService → Bytes → App W → Option GoError × App W
  unfolding finish
  handle_message fl cfg dlq msg app =
      let ran = execute_with_retry fl cfg (process_message msg) app in
      finish dlq msg ran.error ran.world

  -- `StartKafkaConsumer` over the messages that the consumer reads
  unfoldable pub handle_messages :
      (fl : Floats) → RetryConfig fl.Float → DlqService → List Bytes → App W → App W
  handle_messages fl cfg dlq [] app = app
  handle_messages fl cfg dlq (msg ∷ msgs) app =
      let (err, app') = handle_message fl cfg dlq msg app in handle_messages fl cfg dlq msgs app'
