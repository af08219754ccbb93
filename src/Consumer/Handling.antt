-- ===== src/Consumer/Handling.antt =====
-- The messages that the consumer (internal/kafka/consumer.go) hands to its handler.
use order_flow.Prelude.{◌≡◌, refl, none, some, List, [], ◌∷◌}
use order_flow.Floats.{Floats}
use order_flow.Config.{RetryConfig}
use order_flow.Dlq.{Bytes, DlqService}
use order_flow.Messages.{Services, App, handle_message, handle_messages}
use order_flow.Consumer.{
  Read, message, failure, Ended, reading, returned, read_loop, read_messages, start_kafka_consumer,
}

-- The messages before the context is done.
abbrev pub before_done : List Read → List Bytes
before_done [] = []
before_done (message m ∷ reads) = m ∷ before_done reads
before_done (failure e (some done) ∷ reads) = []
before_done (failure e none ∷ reads) = before_done reads

-- The first error of the context.
abbrev pub done_with : List Read → Ended
done_with [] = reading
done_with (message m ∷ reads) = done_with reads
done_with (failure e (some done) ∷ reads) = returned done
done_with (failure e none ∷ reads) = done_with reads

module _ {W : Type 0} (services : Services W) (fl : Floats) (cfg : RetryConfig fl.Float)
    (dlq : DlqService) where
  -- StartKafkaConsumer handles exactly the messages that are read before a read fails with the context
  -- done, each once and in their order, whatever errors the handling and other reads end with. It
  -- returns the context's error at that point, and not before.
  pub start_kafka_consumer-eq :
      (reads : List Read) (app : App W)
      → start_kafka_consumer services fl cfg dlq reads app
        ≡ (done_with reads, handle_messages services fl cfg dlq (before_done reads) app)
  unfolding start_kafka_consumer read_messages read_loop handle_messages
  start_kafka_consumer-eq [] app = refl
  start_kafka_consumer-eq (message m ∷ reads) app =
      start_kafka_consumer-eq reads (handle_message services fl cfg dlq m app).1
  start_kafka_consumer-eq (failure e (some done) ∷ reads) app = refl
  start_kafka_consumer-eq (failure e none ∷ reads) app = start_kafka_consumer-eq reads app
