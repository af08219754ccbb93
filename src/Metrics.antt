-- ===== src/Metrics.antt =====
-- The metrics of internal/metrics/metrics.go. The registry of the Prometheus client is outside: a metric
-- is what it is registered with, and an update the call that it receives.
pub mod Recorded
mod Tests
use order_flow.Prelude.{◌≡◌, ℕ, ◌+◌, ℤ, pos, List, [], ◌∷◌, ◌++◌, String, Duration}
use order_flow.Http.{Emit, Response, set_header, write_header, write}

pub data Buckets : Type 0 where
  default_buckets : Buckets
  exponential_buckets : ℕ → ℕ → ℕ → Buckets

pub data Kind : Type 0 where
  counter : Kind
  gauge : Kind
  histogram : Buckets → Kind

pub record Metric : Type 0 where
  pub kind : Kind
  pub name : String
  pub help : String
  pub labels : List String

abbrev metric : Kind → String → String → List String → Metric
metric kind name help labels = record { kind = kind; name = name; help = help; labels = labels }

pub record Metrics : Type 0 where
  pub http_requests_total : Metric
  pub http_request_duration : Metric
  pub http_request_size : Metric
  pub http_response_size : Metric
  pub kafka_messages_consumed : Metric
  pub kafka_messages_failed : Metric
  pub kafka_consumer_lag : Metric
  pub orders_processed : Metric
  pub orders_failed : Metric
  pub orders_in_cache : Metric
  pub orders_in_db : Metric
  pub retry_attempts : Metric
  pub retry_failures : Metric
  pub dlq_messages_sent : Metric
  pub dlq_messages_processed : Metric
  pub database_connections : Metric
  pub database_query_duration : Metric

unfoldable pub new : Metrics
new = record {
  http_requests_total =
      metric counter "http_requests_total" "Total number of HTTP requests"
        ("method" ∷ "endpoint" ∷ "status" ∷ []);
  http_request_duration =
      metric (histogram default_buckets) "http_request_duration_seconds"
        "HTTP request duration in seconds" ("method" ∷ "endpoint" ∷ []);
  http_request_size =
      metric (histogram (exponential_buckets 100 10 8)) "http_request_size_bytes"
        "HTTP request size in bytes" ("method" ∷ "endpoint" ∷ []);
  http_response_size =
      metric (histogram (exponential_buckets 100 10 8)) "http_response_size_bytes"
        "HTTP response size in bytes" ("method" ∷ "endpoint" ∷ []);
  kafka_messages_consumed =
      metric counter "kafka_messages_consumed_total" "Total number of Kafka messages consumed"
        ("topic" ∷ "group_id" ∷ []);
  kafka_messages_failed =
      metric counter "kafka_messages_failed_total" "Total number of Kafka messages failed"
        ("topic" ∷ "group_id" ∷ "error_type" ∷ []);
  kafka_consumer_lag =
      metric gauge "kafka_consumer_lag" "Kafka consumer lag" ("topic" ∷ "group_id" ∷ []);
  orders_processed =
      metric counter "orders_processed_total" "Total number of orders processed" ("status" ∷ []);
  orders_failed =
      metric counter "orders_failed_total" "Total number of orders failed" ("error_type" ∷ []);
  orders_in_cache = metric gauge "orders_in_cache" "Number of orders in cache" ([]);
  orders_in_db = metric gauge "orders_in_database" "Number of orders in database" ([]);
  retry_attempts =
      metric counter "retry_attempts_total" "Total number of retry attempts"
        ("operation" ∷ "attempt" ∷ []);
  retry_failures =
      metric counter "retry_failures_total" "Total number of retry failures" ("operation" ∷ []);
  dlq_messages_sent =
      metric counter "dlq_messages_sent_total" "Total number of messages sent to DLQ"
        ("topic" ∷ "reason" ∷ []);
  dlq_messages_processed =
      metric counter "dlq_messages_processed_total" "Total number of DLQ messages processed"
        ("topic" ∷ []);
  database_connections =
      metric gauge "database_connections" "Number of database connections" ("state" ∷ []);
  database_query_duration =
      metric (histogram default_buckets) "database_query_duration_seconds"
        "Database query duration in seconds" ("operation" ∷ []);
}

-- All metrics, in the order in which they are registered.
unfoldable pub registered : Metrics → List Metric
registered m =
    m.http_requests_total ∷ m.http_request_duration ∷ m.http_request_size ∷ m.http_response_size
    ∷ m.kafka_messages_consumed ∷ m.kafka_messages_failed ∷ m.kafka_consumer_lag
    ∷ m.orders_processed ∷ m.orders_failed ∷ m.orders_in_cache ∷ m.orders_in_db ∷ m.retry_attempts
    ∷ m.retry_failures ∷ m.dlq_messages_sent ∷ m.dlq_messages_processed ∷ m.database_connections
    ∷ m.database_query_duration ∷ []

-- `responseWriter`, with what it has passed on.
pub record ResponseWriter : Type 0 where
  pub passed : Response
  pub status_code : ℕ
  pub size : ℕ

-- What is observed: a time, in seconds, or a size.
pub data Value : Type 0 where
  one : Value
  seconds : Duration → Value
  bytes : ℤ → Value

pub record Update : Type 0 where
  pub metric : Metric
  pub label_values : List String
  pub value : Value

-- What the middleware reads of a request.
pub record Request : Type 0 where
  pub method : String
  pub path : String
  pub content_length : ℤ

-- `WriteHeader` and `Write`; the other calls are the embedded writer's. A write is complete: also
-- net/http's refusal of a body for the statuses 204 and 304 is left out.
unfoldable pub pass_on : (String → ℕ) → Emit → ResponseWriter → ResponseWriter
pass_on byte_length (set_header k v) w = record w { passed = w.passed ++ (set_header k v ∷ []) }
pass_on byte_length (write_header code) w = record w {
  passed = w.passed ++ (write_header code ∷ []);
  status_code = code;
}
pass_on byte_length (write body) w = record w {
  passed = w.passed ++ (write body ∷ []);
  size = w.size + byte_length body;
}

-- The calls of a handler, on the wrapped writer.
unfoldable pub serve : (String → ℕ) → Response → ResponseWriter → ResponseWriter
serve byte_length [] w = w
serve byte_length (e ∷ es) w = serve byte_length es (pass_on byte_length e w)

abbrev pub wrapped : ResponseWriter
wrapped = record { passed = []; status_code = 200; size = 0 }

-- The updates that follow a request, by its status and the size of its response.
unfoldable pub updates :
    (ℕ → String) → Metrics → Request → (status size : ℕ) → Duration → List Update
updates status_text m r status size duration =
    record {
      metric = m.http_requests_total;
      label_values = r.method ∷ r.path ∷ status_text status ∷ [];
      value = one;
    }
    ∷ record {
      metric = m.http_request_duration;
      label_values = r.method ∷ r.path ∷ [];
      value = seconds duration;
    }
    ∷ record {
      metric = m.http_request_size;
      label_values = r.method ∷ r.path ∷ [];
      value = bytes r.content_length;
    }
    ∷ record {
      metric = m.http_response_size;
      label_values = r.method ∷ r.path ∷ [];
      value = bytes (pos size);
    }
    ∷ []

-- `HTTPMiddleware`, over the calls of the next handler and the time that it takes: what the client is
-- sent, and the updates of the metrics.
unfoldable pub http_middleware :
    (ℕ → String) → (String → ℕ) → Metrics → Request → Response → Duration → Response × List Update
http_middleware status_text byte_length m r calls duration =
    let w = serve byte_length calls wrapped in
    (w.passed, updates status_text m r w.status_code w.size duration)
