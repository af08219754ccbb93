-- ===== src/Service.antt =====
-- The start of the service in cmd/service/initializer.go, and the exits of cmd/service/main.go before it
-- serves. Connecting to the database is a parameter; the clients of Kafka and the HTTP server are the
-- settings that they are made with.
pub mod Start
mod Tests
use order_flow.Prelude.{
  ◌≡◌, ◌⊎◌, inl, inr, ℕ, suc, ◌*◌, ◌-◌, ◌%◌, ◌^◌, ◌+◌, ℤ, pos, negsuc, leb, max_int, minute, Option,
  none, some, List, [], ◌∷◌, map, String, Time, Duration, if◌then◌else◌,
}
use order_flow.Model.{Order}
use order_flow.Errors.{GoError, Message, str, int}
use order_flow.Config.{Config}
use order_flow.Config.Load.{database_url}
use order_flow.Dlq.{DlqService, new_dlq_service}
use order_flow.Cache.{OrderCache, new_order_cache, load_all, stop}

-- 64 bits as a signed integer.
abbrev pub signed : ℕ → ℤ
signed k = if leb k max_int then pos k else negsuc (2 ^ 64 - 1 - k)

-- `time.Duration(minutes) * time.Minute`
unfoldable pub minutes : ℤ → Duration
minutes (pos n) = signed ((n * minute) % 2 ^ 64)
minutes (negsuc n) = signed ((2 ^ 64 - (suc n * minute) % 2 ^ 64) % 2 ^ 64)

-- The Kafka reader's settings.
pub record Consumer : Type 0 where
  pub brokers : List String
  pub topic : String
  pub group_id : String

-- The HTTP server's settings.
pub record HttpServer : Type 0 where
  pub address : Message
  pub read_timeout : Duration
  pub write_timeout : Duration
  pub idle_timeout : Duration

-- The validator has no state, and the retry service only its configuration.
pub record App (F : Type 0) : Type 0 where
  pub config : Config F
  pub cache : OrderCache
  pub dlq_service : DlqService
  pub consumer : Consumer
  pub http_server : HttpServer

-- What main does before it waits for a signal.
pub data Started (F : Type 0) : Type 0 where
  config_failed : GoError → Started F
  init_failed : GoError → Started F
  serving : App F → Started F

-- Where LoadAllOrders fails, there are no orders.
abbrev pub orders_or_none : GoError ⊎ List Order → List Order
orders_or_none (inl e) = []
orders_or_none (inr os) = os

module _ {F : Type 0} where
  -- `initCache`, at a reading of the clock
  unfoldable pub init_cache : Config F → GoError ⊎ List Order → Time → OrderCache
  init_cache cfg loaded now =
      load_all now (map some (orders_or_none loaded))
        (new_order_cache cfg.cache.max_size (minutes cfg.cache.ttl_minutes))

  unfoldable pub init_dlq_service : Config F → DlqService
  init_dlq_service cfg = new_dlq_service cfg.dlq

  unfoldable pub init_kafka_consumer : Config F → Consumer
  init_kafka_consumer cfg = record {
    brokers = cfg.kafka.brokers;
    topic = cfg.kafka.topic;
    group_id = cfg.kafka.group_id;
  }

  unfoldable pub init_http_server : Config F → HttpServer
  init_http_server cfg = record {
    address = str ":" ∷ int cfg.http.port ∷ [];
    read_timeout = cfg.http.read_timeout;
    write_timeout = cfg.http.write_timeout;
    idle_timeout = cfg.http.idle_timeout;
  }

  connected : Config F → GoError ⊎ List Order → Time → Option GoError → GoError ⊎ App F
  connected cfg loaded now (some e) = inl e
  connected cfg loaded now none = inr (record {
    config = cfg;
    cache = init_cache cfg loaded now;
    dlq_service = init_dlq_service cfg;
    consumer = init_kafka_consumer cfg;
    http_server = init_http_server cfg;
  })

  -- `NewApp`; `loaded` is what LoadAllOrders returns.
  unfoldable pub new_app :
      (Message → Option GoError) → Config F → GoError ⊎ List Order → Time → GoError ⊎ App F
  unfolding connected
  new_app connect cfg loaded now = connected cfg loaded now (connect (database_url cfg.database))

  -- `Close`, which returns nil; closing the clients changes nothing here, and `none` is a panic.
  unfoldable pub close : App F → Option (App F)
  close app = elim (stop app.cache) [ none ↦ none | some c ↦ some (record app { cache = c }) ]

  made : GoError ⊎ App F → Started F
  made (inl e) = init_failed e
  made (inr app) = serving app

  unfoldable pub main :
      (Message → Option GoError) → GoError ⊎ Config F → GoError ⊎ List Order → Time → Started F
  unfolding made
  main connect (inl e) loaded now = config_failed e
  main connect (inr cfg) loaded now = made (new_app connect cfg loaded now)
