-- ===== src/Config/Accepted.antt =====
-- Which configurations the validator of internal/config/validator.go accepts as a whole.
use order_flow.Prelude.{
  ℕ, suc, ◌≡◌, ◌≢◌, ◌↔◌, refl, false, Option, none, some, List, [], ◌∷◌, ◌++◌, String, pos, ◌≤ℤ◌,
  All,
}
use order_flow.Strings.{is_some}
use order_flow.Errors.{Message}
use order_flow.Floats.{Floats}
use order_flow.Config.{Config, KafkaConfig, RetryConfig}
use order_flow.Config.Checks.{Check, IsPassed, run_checks, run_checks-none}
use order_flow.Config.Validator.{
  is_nil, validate_database, validate_host_port, broker_checks, kafka_checks, validate_kafka,
  validate_cache, validate_http, validate_dlq, validate_logger, validate_metrics,
}
use order_flow.Config.Overall.{failed, retry_checks, validate_retry, section_checks, validate}
use order_flow.Config.Sections.{
  IsPositive, AcceptsDatabase, AcceptsCache, AcceptsHttp, AcceptsDlq, AcceptsLogger, AcceptsMetrics,
  compose, positive_iff, empty_iff, le_iff, validate_database-eq_none, validate_cache-eq_none,
  validate_http-eq_none, validate_dlq-eq_none, validate_logger-eq_none, validate_metrics-eq_none,
}
use order_flow.Config.Addresses.{IsAddress, validate_host_port-eq_none}

pub record AcceptsKafka (cfg : KafkaConfig) : Type 0 where
  pub some_broker : cfg.brokers ≢ []
  pub brokers : All IsAddress cfg.brokers
  pub topic : cfg.topic ≢ ""
  pub group_id : cfg.group_id ≢ ""
  pub batch_size : IsPositive cfg.batch_size
  pub batch_timeout : IsPositive cfg.batch_timeout

All-append : (cs ds : List Check) → All IsPassed (cs ++ ds) ↔ (All IsPassed cs × All IsPassed ds)
All-append [] ds = (λ h. (tt, h), λ h. h.1)
All-append (c ∷ cs) ds =
    let f = All-append cs ds in
    (λ h. ((h.0, (f.0 h.1).0), (f.0 h.1).1), λ h. (h.0.0, f.1 (h.0.1, h.1)))

some_iff : (e : Option Message) → (is_some e ≡ false) ↔ (e ≡ none)
some_iff none = (λ h. refl, λ h. refl)
some_iff (some m) = (λ h. cc, λ h. cc)

brokers_lem : (i : ℕ) (bs : List String) → All IsPassed (broker_checks i bs) ↔ All IsAddress bs
unfolding broker_checks
brokers_lem i [] = (λ h. tt, λ h. tt)
brokers_lem i (b ∷ bs) =
    let rest = brokers_lem (suc i) bs in
    let one = compose (some_iff (validate_host_port b)) (validate_host_port-eq_none b) in
    (λ h. (one.0 h.0, rest.0 h.1), λ h. (one.1 h.0, rest.1 h.1))

nil_iff : (bs : List String) → (is_nil bs ≡ false) ↔ (bs ≢ [])
nil_iff [] = (λ h. cc, λ h. absurd (h refl))
nil_iff (b ∷ bs) = (λ h e. cc, λ h. refl)

kafka_lem : (cfg : KafkaConfig) → All IsPassed (kafka_checks cfg) ↔ AcceptsKafka cfg
unfolding kafka_checks
kafka_lem cfg =
    let bs = brokers_lem 0 cfg.brokers in
    let split = All-append (broker_checks 0 cfg.brokers) _ in
    (
      λ h.
          let (own, rest) = split.0 h.1 in
          record {
            some_broker = (nil_iff cfg.brokers).0 h.0;
            brokers = bs.0 own;
            topic = (empty_iff cfg.topic).0 rest.0;
            group_id = (empty_iff cfg.group_id).0 rest.1.0;
            batch_size = (positive_iff cfg.batch_size).0 rest.1.1.0;
            batch_timeout = (positive_iff cfg.batch_timeout).0 rest.1.1.1.0;
          },
      λ a. (
        (nil_iff cfg.brokers).1 a.some_broker,
        split.1 (
          bs.1 a.brokers,
          (
            (empty_iff cfg.topic).1 a.topic,
            (
              (empty_iff cfg.group_id).1 a.group_id,
              (
                (positive_iff cfg.batch_size).1 a.batch_size,
                ((positive_iff cfg.batch_timeout).1 a.batch_timeout, tt),
              ),
            ),
          ),
        ),
      ),
    )

validate_kafka-eq_none : (cfg : KafkaConfig) → (validate_kafka cfg ≡ none) ↔ AcceptsKafka cfg
unfolding validate_kafka
validate_kafka-eq_none cfg = compose (run_checks-none (kafka_checks cfg)) (kafka_lem cfg)

failed_iff : (e : Option Message) → (failed e ≡ none) ↔ (e ≡ none)
unfolding failed
failed_iff none = (λ h. refl, λ h. refl)
failed_iff (some m) = (λ h. cc, λ h. cc)

module _ (fl : Floats) where
  open fl use {Float, of_int, le}

  pub record AcceptsRetry (cfg : RetryConfig Float) : Type 0 where
    pub attempts : IsPositive cfg.max_attempts
    pub attempts_limit : cfg.max_attempts ≤ℤ pos 10
    pub initial : IsPositive cfg.initial_delay
    pub maximum : IsPositive cfg.max_delay
    pub multiplier : le cfg.multiplier (of_int (pos 0)) ≡ false
    pub ordered : cfg.initial_delay ≤ℤ cfg.max_delay

  retry_lem : (cfg : RetryConfig Float) → All IsPassed (retry_checks fl cfg) ↔ AcceptsRetry cfg
  unfolding retry_checks
  retry_lem cfg = (
    λ h. record {
      attempts = (positive_iff cfg.max_attempts).0 h.0;
      attempts_limit = (le_iff cfg.max_attempts (pos 10)).0 h.1.0;
      initial = (positive_iff cfg.initial_delay).0 h.1.1.0;
      maximum = (positive_iff cfg.max_delay).0 h.1.1.1.0;
      multiplier = h.1.1.1.1.0;
      ordered = (le_iff cfg.initial_delay cfg.max_delay).0 h.1.1.1.1.1.0;
    },
    λ a. (
      (positive_iff cfg.max_attempts).1 a.attempts,
      (
        (le_iff cfg.max_attempts (pos 10)).1 a.attempts_limit,
        (
          (positive_iff cfg.initial_delay).1 a.initial,
          (
            (positive_iff cfg.max_delay).1 a.maximum,
            (a.multiplier, ((le_iff cfg.initial_delay cfg.max_delay).1 a.ordered, tt)),
          ),
        ),
      ),
    ),
  )

  validate_retry-eq_none :
      (cfg : RetryConfig Float) → (validate_retry fl cfg ≡ none) ↔ AcceptsRetry cfg
  unfolding validate_retry
  validate_retry-eq_none cfg = compose (run_checks-none (retry_checks fl cfg)) (retry_lem cfg)

  -- What a whole configuration must be: each section by its own conditions.
  pub record Accepts (cfg : Config Float) : Type 0 where
    pub database : AcceptsDatabase cfg.database
    pub kafka : AcceptsKafka cfg.kafka
    pub cache : AcceptsCache cfg.cache
    pub http : AcceptsHttp cfg.http
    pub retry : AcceptsRetry cfg.retry
    pub dlq : AcceptsDlq cfg.dlq
    pub logger : AcceptsLogger cfg.logger
    pub metrics : AcceptsMetrics cfg.metrics

  sections_lem : (cfg : Config Float) → All IsPassed (section_checks fl cfg) ↔ Accepts cfg
  unfolding section_checks
  sections_lem cfg =
      let d =
        compose (some_iff (validate_database cfg.database))
          (validate_database-eq_none cfg.database) in
      let k = compose (some_iff (validate_kafka cfg.kafka)) (validate_kafka-eq_none cfg.kafka) in
      let c = compose (some_iff (validate_cache cfg.cache)) (validate_cache-eq_none cfg.cache) in
      let h = compose (some_iff (validate_http cfg.http)) (validate_http-eq_none cfg.http) in
      let r = compose (some_iff (validate_retry fl cfg.retry)) (validate_retry-eq_none cfg.retry) in
      let q = compose (some_iff (validate_dlq cfg.dlq)) (validate_dlq-eq_none cfg.dlq) in
      let l =
        compose (some_iff (validate_logger cfg.logger)) (validate_logger-eq_none cfg.logger) in
      let m =
        compose (some_iff (validate_metrics cfg.metrics)) (validate_metrics-eq_none cfg.metrics) in
      (
        λ p. record {
          database = d.0 p.0;
          kafka = k.0 p.1.0;
          cache = c.0 p.1.1.0;
          http = h.0 p.1.1.1.0;
          retry = r.0 p.1.1.1.1.0;
          dlq = q.0 p.1.1.1.1.1.0;
          logger = l.0 p.1.1.1.1.1.1.0;
          metrics = m.0 p.1.1.1.1.1.1.1.0;
        },
        λ a. (
          d.1 a.database,
          (
            k.1 a.kafka,
            (
              c.1 a.cache,
              (h.1 a.http, (r.1 a.retry, (q.1 a.dlq, (l.1 a.logger, (m.1 a.metrics, tt))))),
            ),
          ),
        ),
      )

  -- The validator returns no error exactly for the configurations that `Accepts` describes: every
  -- required text is there, every port lies in 1 .. 65535, every count, size and duration is positive,
  -- the idle connections are at most the open ones, the HTTP timeouts for reading and writing at most
  -- five minutes, the attempts at most 10 and the initial delay at most the largest; there is a broker,
  -- and each is a host and a port in that range; the multiplier is not at most zero; the log level is
  -- debug, info, warn, warning, error, fatal or panic and the format json or text, in letters of any
  -- case (ASCII letters have one); and the metrics path is a slash followed by letters, digits, slashes, underscores and hyphens.
  pub validate-eq_none : (cfg : Config Float) → (validate fl cfg ≡ none) ↔ Accepts cfg
  unfolding validate
  validate-eq_none cfg =
      compose (failed_iff (run_checks (section_checks fl cfg)))
        (compose (run_checks-none (section_checks fl cfg)) (sections_lem cfg))
