-- ===== src/Config/Validator.antt =====
-- The configuration validator of internal/config/validator.go. `none` is a nil error.
use order_flow.Prelude.{
  ℕ, suc, Bool, true, false, not, ◌&&◌, ◌||◌, Option, none, some, List, [], ◌∷◌, ◌++◌, String, ℤ,
  pos, ltb_ℤ, leb_ℤ, leb, ◌==◌, str_eq, if◌then◌else◌,
}
use order_flow.Strings.{
  codes, has_prefix, to_lower, one_of, atoi, split_host_port, is_digit, is_some,
}
use order_flow.Errors.{Message, str, int}
use order_flow.Config.{
  DatabaseConfig, KafkaConfig, HttpConfig, CacheConfig, DlqConfig, LoggerConfig, MetricsConfig,
}
use order_flow.Config.Checks.{Check, run_checks}

abbrev text : String → Message
text s = str s ∷ []

abbrev pub check : Bool → String → Check
check fault message = record { fault = fault; message = text message }

abbrev pub is_empty : String → Bool
is_empty s = str_eq s ""

-- `n <= 0`
abbrev pub not_positive : ℤ → Bool
not_positive n = leb_ℤ n (pos 0)

abbrev pub bad_port : ℤ → Bool
bad_port p = leb_ℤ p (pos 0) || ltb_ℤ (pos 65535) p

unfoldable pub database_checks : DatabaseConfig → List Check
database_checks cfg =
    check (is_empty cfg.host) "host is required"
    ∷ check (bad_port cfg.port) "port must be between 1 and 65535"
    ∷ check (is_empty cfg.user) "user is required"
    ∷ check (is_empty cfg.password) "password is required"
    ∷ check (is_empty cfg.database) "database name is required"
    ∷ check (not_positive cfg.max_open_conns) "max_open_conns must be greater than 0"
    ∷ check (not_positive cfg.max_idle_conns) "max_idle_conns must be greater than 0"
    ∷ check (not_positive cfg.conn_max_lifetime) "conn_max_lifetime must be greater than 0"
    ∷ check (ltb_ℤ cfg.max_open_conns cfg.max_idle_conns)
        "max_idle_conns cannot be greater than max_open_conns"
    ∷ []

unfoldable pub validate_database : DatabaseConfig → Option Message
unfolding run_checks database_checks
validate_database cfg = run_checks (database_checks cfg)

unfoldable pub port_error : Option ℤ → Option Message
port_error none = some (text "invalid port")
port_error (some port) =
    if bad_port port then some (text "port must be between 1 and 65535") else none

unfoldable pub host_port_error : Option (List ℕ × List ℕ) → Option Message
host_port_error none = some (text "invalid host:port format")
host_port_error (some ([], port)) = some (text "host cannot be empty")
host_port_error (some (c ∷ cs, port)) = port_error (atoi port)

-- `validateHostPort`; the texts of the errors of net and strconv are left out.
unfoldable pub validate_host_port : String → Option Message
unfolding port_error host_port_error
validate_host_port addr = host_port_error (split_host_port (codes addr))

unfoldable pub or_text : Option Message → Message
or_text none = []
or_text (some m) = m

unfoldable pub broker_checks : ℕ → List String → List Check
broker_checks i [] = []
broker_checks i (b ∷ bs) =
    record {
      fault = is_some (validate_host_port b);
      message =
          str "broker "
          ∷ int (pos i)
          ∷ str " ("
          ∷ str b
          ∷ str "): "
          ∷ or_text (validate_host_port b);
    }
    ∷ broker_checks (suc i) bs

abbrev pub is_nil {ℓ} : {A : Type ℓ} → List A → Bool
is_nil [] = true
is_nil (x ∷ xs) = false

unfoldable pub kafka_checks : KafkaConfig → List Check
unfolding broker_checks or_text
kafka_checks cfg =
    check (is_nil cfg.brokers) "at least one broker is required"
    ∷ (broker_checks 0 cfg.brokers
        ++ (check (is_empty cfg.topic) "topic is required"
            ∷ check (is_empty cfg.group_id) "group_id is required"
            ∷ check (not_positive cfg.batch_size) "batch_size must be greater than 0"
            ∷ check (not_positive cfg.batch_timeout) "batch_timeout must be greater than 0"
            ∷ []))

unfoldable pub validate_kafka : KafkaConfig → Option Message
unfolding run_checks kafka_checks
validate_kafka cfg = run_checks (kafka_checks cfg)

unfoldable pub cache_checks : CacheConfig → List Check
cache_checks cfg =
    check (not_positive cfg.ttl_minutes) "ttl_minutes must be greater than 0"
    ∷ check (not_positive cfg.max_size) "max_size must be greater than 0"
    ∷ check (not_positive cfg.cleanup_interval) "cleanup_interval must be greater than 0"
    ∷ []

unfoldable pub validate_cache : CacheConfig → Option Message
unfolding run_checks cache_checks
validate_cache cfg = run_checks (cache_checks cfg)

abbrev pub five_minutes : ℤ
five_minutes = pos 300000000000

unfoldable pub http_checks : HttpConfig → List Check
http_checks cfg =
    check (bad_port cfg.port) "port must be between 1 and 65535"
    ∷ check (not_positive cfg.read_timeout) "read_timeout must be greater than 0"
    ∷ check (not_positive cfg.write_timeout) "write_timeout must be greater than 0"
    ∷ check (not_positive cfg.idle_timeout) "idle_timeout must be greater than 0"
    ∷ check (ltb_ℤ five_minutes cfg.read_timeout) "read_timeout should not exceed 5 minutes"
    ∷ check (ltb_ℤ five_minutes cfg.write_timeout) "write_timeout should not exceed 5 minutes"
    ∷ []

unfoldable pub validate_http : HttpConfig → Option Message
unfolding run_checks http_checks
validate_http cfg = run_checks (http_checks cfg)

unfoldable pub dlq_checks : DlqConfig → List Check
dlq_checks cfg =
    check (cfg.enabled && is_empty cfg.topic) "topic is required when DLQ is enabled"
    ∷ check (not_positive cfg.max_retries) "max_retries must be greater than 0"
    ∷ []

unfoldable pub validate_dlq : DlqConfig → Option Message
unfolding run_checks dlq_checks
validate_dlq cfg = run_checks (dlq_checks cfg)

abbrev pub valid_levels : List String
valid_levels = "debug" ∷ "info" ∷ "warn" ∷ "warning" ∷ "error" ∷ "fatal" ∷ "panic" ∷ []

abbrev pub valid_formats : List String
valid_formats = "json" ∷ "text" ∷ []

unfoldable pub logger_checks : LoggerConfig → List Check
logger_checks cfg =
    record {
      fault = not (one_of valid_levels (to_lower (codes cfg.level)));
      message =
          str "invalid log level '"
          ∷ str cfg.level
          ∷ str "', valid levels: debug, info, warn, error, fatal, panic"
          ∷ [];
    }
    ∷ record {
      fault = not (one_of valid_formats (to_lower (codes cfg.format)));
      message =
          str "invalid log format '" ∷ str cfg.format ∷ str "', valid formats: json, text" ∷ [];
    }
    ∷ []

unfoldable pub validate_logger : LoggerConfig → Option Message
unfolding run_checks logger_checks
validate_logger cfg = run_checks (logger_checks cfg)

abbrev pub path_code : ℕ → Bool
path_code c =
    (leb b'a' c && leb c b'z')
    || (leb b'A' c && leb c b'Z')
    || is_digit c
    || c == b'/'
    || c == b'_'
    || c == b'-'

unfoldable pub all_path_codes : List ℕ → Bool
all_path_codes [] = true
all_path_codes (c ∷ cs) = path_code c && all_path_codes cs

-- The regular expression ^/[a-zA-Z0-9/_-]*$
unfoldable pub matches_path : List ℕ → Bool
unfolding all_path_codes
matches_path [] = false
matches_path (c ∷ cs) = c == b'/' && all_path_codes cs

unfoldable pub metrics_checks : MetricsConfig → List Check
metrics_checks cfg =
    check (bad_port cfg.port) "port must be between 1 and 65535"
    ∷ check (is_empty cfg.path) "path is required"
    ∷ check (not (has_prefix cfg.path "/")) "path must start with '/'"
    ∷ check (not (matches_path (codes cfg.path))) "path contains invalid characters"
    ∷ []

unfoldable pub validate_metrics : MetricsConfig → Option Message
unfolding run_checks metrics_checks
validate_metrics cfg = run_checks (metrics_checks cfg)
