-- ===== src/Consumer.antt =====
-- The Kafka consumer of internal/kafka/consumer.go, and StartKafkaConsumer of
-- cmd/service/message_handler.go, which runs the message handler in it. What the client's ReadMessage
-- returns is a list of outcomes; the handler acts on a state.
pub mod Handling
pub mod Stored
mod Tests
use order_flow.Prelude.{◌≡◌, Option, none, some, List, [], ◌∷◌}
use order_flow.Errors.{GoError, plain, str}
use order_flow.Floats.{Floats}
use order_flow.Config.{RetryConfig}
use order_flow.Dlq.{Bytes, DlqService}
use order_flow.Messages.{Services, App, handle_message}

-- What a call of ReadMessage ends with: a message, or an error, with what `ctx.Err()` is after it.
pub data Read : Type 0 where
  message : Bytes → Read
  failure : GoError → Option GoError → Read

-- ReadMessages has returned an error, or it still reads after the given reads.
pub data Ended : Type 0 where
  reading : Ended
  returned : GoError → Ended

module _ {St : Type 0} where
  -- The loop
  unfoldable pub read_loop : (Bytes → St → St) → List Read → St → Ended × St
  read_loop handle [] st = (reading, st)
  read_loop handle (message m ∷ reads) st = read_loop handle reads (handle m st)
  read_loop handle (failure e (some done) ∷ reads) st = (returned done, st)
  read_loop handle (failure e none ∷ reads) st = read_loop handle reads st

  -- `ReadMessages`; `none` is a nil handler.
  unfoldable pub read_messages : Option (Bytes → St → St) → List Read → St → Ended × St
  read_messages none reads st = (returned (plain (str "handle is nil" ∷ [])), st)
  read_messages (some handle) reads st = read_loop handle reads st

-- `StartKafkaConsumer`: an error of the handler is only logged.
unfoldable pub start_kafka_consumer :
    {W : Type 0}
    → Services W
    → (fl : Floats) → RetryConfig fl.Float
    → DlqService
    → List Read
    → App W
    → Ended × App W
start_kafka_consumer services fl cfg dlq reads app =
    read_messages (some (λ m st. let (err, st') = handle_message services fl cfg dlq m st in st'))
      reads app
