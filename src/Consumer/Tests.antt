-- ===== src/Consumer/Tests.antt =====
-- Runs of the consumer (internal/kafka/consumer.go), and its theorem at a concrete input.
use order_flow.Prelude.{◌≡◌, refl, none, some, List, [], ◌∷◌}
use order_flow.Errors.{GoError, plain, str}
use order_flow.Messages.{handle_messages}
use order_flow.Samples.{sample_order}
use order_flow.Messages.{handle_message, process_message}
use order_flow.Retry.{execute_with_retry, retry_loop}
use order_flow.OrderValidator.{validate, judge}
use order_flow.Repository.{save_order, close_transaction, save_steps, item_steps}
use order_flow.Database.{run_steps}
use order_flow.Repository.Samples.{empty}
use order_flow.Consumer.Stored.{with_orders, handled_orders, start_kafka_consumer-tables}
use order_flow.Messages.Samples.{
  stored_server, stored_commits, stored_laws, stored_services, stored_app, connected, services,
  whole, cfg, queue, app_with,
}
use order_flow.Consumer.{Read, message, failure, returned, read_messages, start_kafka_consumer}
use order_flow.Consumer.Handling.{before_done, start_kafka_consumer-eq}

abbrev timeout : GoError
timeout = plain (str "i/o timeout" ∷ [])

abbrev canceled : GoError
canceled = plain (str "context canceled" ∷ [])

abbrev reads : List Read
reads =
    message (1 ∷ [])
    ∷ failure timeout none
    ∷ message (0 ∷ [])
    ∷ failure timeout (some canceled)
    ∷ message (1 ∷ [])
    ∷ []

start_kafka_consumer-eq_example :
    start_kafka_consumer services whole cfg queue reads (app_with 1) ≡ (
      returned canceled,
      handle_messages services whole cfg queue ((1 ∷ []) ∷ (0 ∷ []) ∷ []) (app_with 1),
    )
start_kafka_consumer-eq_example =
    start_kafka_consumer-eq services whole cfg queue reads (app_with 1)

without_handler :
    read_messages {St = Unit {0}} none reads tt ≡ (returned (plain (str "handle is nil" ∷ [])), tt)
unfolding read_messages
without_handler = refl

start_kafka_consumer-tables_example :
    (start_kafka_consumer stored_services whole cfg queue reads stored_app).1.world.tables
    ≡ with_orders
        (handled_orders stored_services whole cfg queue (before_done reads) stored_app)
        empty
start_kafka_consumer-tables_example =
    start_kafka_consumer-tables stored_services stored_server connected stored_commits (λ t. t)
      stored_laws (λ w. refl) (λ w st view. refl) whole cfg queue reads 2 stored_app refl

stored_once :
    handled_orders stored_services whole cfg queue (before_done reads) stored_app
    ≡ sample_order "order-a" ∷ []
unfolding handled_orders handle_message process_message execute_with_retry retry_loop validate judge
    save_order close_transaction save_steps item_steps run_steps
stored_once = refl
