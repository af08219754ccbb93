-- ===== src/Config/Load.antt =====
-- `Load` of internal/config/config.go: the configuration that the environment describes, validated.
use order_flow.Prelude.{
  ℕ, ◌≡◌, ◌⊎◌, inl, inr, refl, Bool, true, Option, none, some, [], ◌∷◌, String, ℤ, pos, Duration,
  subst,
}
use order_flow.Errors.{Message, str, int, GoError}
use order_flow.Floats.{Floats}
use order_flow.Config.{
  Config, DatabaseConfig, get_env, get_env_as_int, get_env_as_bool, get_env_as_duration,
  get_env_as_float, split_commas,
}
use order_flow.Config.Overall.{validate}
use order_flow.Config.Accepted.{Accepts, validate-eq_none}

-- `DatabaseURL()`, as the pieces that are joined
unfoldable pub database_url : DatabaseConfig → Message
database_url d =
    str "postgresql://"
    ∷ str d.user
    ∷ str ":"
    ∷ str d.password
    ∷ str "@"
    ∷ str d.host
    ∷ str ":"
    ∷ int d.port
    ∷ str "/"
    ∷ str d.database
    ∷ str "?sslmode="
    ∷ str d.ssl_mode
    ∷ []

abbrev outcome : {A : Type 0} → Option GoError → A → GoError ⊎ A
outcome none a = inr a
outcome (some e) a = inl e

outcome-inr :
    {A : Type 0} (e : Option GoError) (a b : A) → outcome e a ≡ inr b → (e ≡ none) × (a ≡ b)
outcome-inr none a b h = (refl, cc)
outcome-inr (some e) a b h = cc

module _ (fl : Floats) (parse_duration : String → Option Duration)
    (parse_float : String → Option fl.Float) (env : String → String) where
  open fl use {Float, of_int}

  text : String → String → String
  text = get_env env

  number : String → ℤ → ℤ
  number = get_env_as_int env

  flag : String → Bool → Bool
  flag = get_env_as_bool env

  duration : String → ℕ → Duration
  duration key default = get_env_as_duration env parse_duration key (pos default)

  -- The configuration before it is validated.
  unfoldable pub read_config : Config Float
  unfolding text number flag duration
  read_config = record {
    database = record {
      host = text "DB_HOST" "127.0.0.1";
      port = number "DB_PORT" (pos 5432);
      user = text "DB_USER" "orders_user";
      password = text "DB_PASSWORD" "orders_pass";
      database = text "DB_NAME" "orders_db";
      ssl_mode = text "DB_SSLMODE" "disable";
      max_open_conns = number "DB_MAX_OPEN_CONNS" (pos 25);
      max_idle_conns = number "DB_MAX_IDLE_CONNS" (pos 5);
      conn_max_lifetime = duration "DB_CONN_MAX_LIFETIME" 300000000000;
    };
    kafka = record {
      brokers = split_commas (text "KAFKA_BROKERS" "localhost:9092");
      topic = text "KAFKA_TOPIC" "orders";
      group_id = text "KAFKA_GROUP_ID" "order-service";
      auto_offset_reset = text "KAFKA_AUTO_OFFSET_RESET" "earliest";
      enable_auto_commit = flag "KAFKA_ENABLE_AUTO_COMMIT" true;
      session_timeout_ms = number "KAFKA_SESSION_TIMEOUT_MS" (pos 30000);
      batch_size = number "KAFKA_BATCH_SIZE" (pos 100);
      batch_timeout = duration "KAFKA_BATCH_TIMEOUT" 100000000;
    };
    http = record {
      port = number "HTTP_PORT" (pos 8082);
      read_timeout = duration "HTTP_READ_TIMEOUT" 30000000000;
      write_timeout = duration "HTTP_WRITE_TIMEOUT" 30000000000;
      idle_timeout = duration "HTTP_IDLE_TIMEOUT" 60000000000;
    };
    cache = record {
      max_size = number "CACHE_MAX_SIZE" (pos 1000);
      ttl_minutes = number "CACHE_TTL_MINUTES" (pos 60);
      cleanup_interval = duration "CACHE_CLEANUP_INTERVAL" 300000000000;
    };
    app = record {
      graceful_shutdown_timeout = duration "GRACEFUL_SHUTDOWN_TIMEOUT" 30000000000;
      log_level = text "LOG_LEVEL" "info";
      environment = text "ENVIRONMENT" "development";
      database_load_timeout = duration "DB_LOAD_TIMEOUT" 10000000000;
      shutdown_wait_timeout = duration "SHUTDOWN_WAIT_TIMEOUT" 5000000000;
    };
    generator = record {
      max_orders_count = number "GENERATOR_MAX_ORDERS" (pos 10000);
      max_items_per_order = number "GENERATOR_MAX_ITEMS_PER_ORDER" (pos 5);
      min_price = number "GENERATOR_MIN_PRICE" (pos 50);
      max_price = number "GENERATOR_MAX_PRICE" (pos 5000);
      max_sale = number "GENERATOR_MAX_SALE" (pos 50);
    };
    validation = record {
      order_uid_min_length = number "VALIDATION_ORDER_UID_MIN_LENGTH" (pos 10);
      order_uid_max_length = number "VALIDATION_ORDER_UID_MAX_LENGTH" (pos 50);
      track_number_min_length = number "VALIDATION_TRACK_NUMBER_MIN_LENGTH" (pos 5);
      track_number_max_length = number "VALIDATION_TRACK_NUMBER_MAX_LENGTH" (pos 20);
      max_payment_amount = number "VALIDATION_MAX_PAYMENT_AMOUNT" (pos 1000000);
      max_items_per_order = number "VALIDATION_MAX_ITEMS_PER_ORDER" (pos 100);
      max_item_price = number "VALIDATION_MAX_ITEM_PRICE" (pos 100000);
    };
    retry = record {
      max_attempts = number "RETRY_MAX_ATTEMPTS" (pos 3);
      initial_delay = duration "RETRY_INITIAL_DELAY" 1000000000;
      max_delay = duration "RETRY_MAX_DELAY" 30000000000;
      multiplier = get_env_as_float env parse_float "RETRY_MULTIPLIER" (of_int (pos 2));
    };
    dlq = record {
      enabled = flag "DLQ_ENABLED" true;
      topic = text "DLQ_TOPIC" "orders-dlq";
      max_retries = number "DLQ_MAX_RETRIES" (pos 3);
    };
    logger = record { level = text "LOG_LEVEL" "info"; format = text "LOG_FORMAT" "json" };
    metrics = record {
      enabled = flag "METRICS_ENABLED" true;
      port = number "METRICS_PORT" (pos 9090);
      path = text "METRICS_PATH" "/metrics";
    };
  }

  -- `Load`: the configuration, or the validator's error.
  unfoldable pub load : GoError ⊎ Config Float
  load = outcome (validate fl read_config) read_config

  -- Whatever the environment, a configuration that `Load` returns is one that the validator's
  -- conditions describe.
  pub load-Accepts : (cfg : Config Float) → load ≡ inr cfg → Accepts fl cfg
  unfolding load
  load-Accepts cfg h =
      let (valid, same) = outcome-inr (validate fl read_config) read_config cfg h in
      subst (Accepts fl) same ((validate-eq_none fl read_config).0 valid)
