-- ===== src/Config.antt =====
-- The configuration of internal/config/config.go (with logger.Config of internal/logger/logger.go).
-- The environment, `time.ParseDuration` and `strconv.ParseFloat` are arguments.
pub mod Checks
pub mod Validator
pub mod Overall
pub mod Sections
pub mod Addresses
pub mod Accepted
pub mod Load
mod Tests
use Prim.Native.Char.{code}
use Prim.Native.String.{String as Text}
use order_flow.Prelude.{
  ℕ, ◌≡◌, Bool, true, false, ◌||◌, Option, none, some, List, [], ◌∷◌, String, ℤ, pos, Duration,
  str_eq, ◌==◌, if◌then◌else◌,
}
use order_flow.Strings.{codes, atoi, one_of, get_or}

pub record DatabaseConfig : Type 0 where
  pub host : String
  pub port : ℤ
  pub user : String
  pub password : String
  pub database : String
  pub ssl_mode : String
  pub max_open_conns : ℤ
  pub max_idle_conns : ℤ
  pub conn_max_lifetime : Duration

pub record KafkaConfig : Type 0 where
  pub brokers : List String
  pub topic : String
  pub group_id : String
  pub auto_offset_reset : String
  pub enable_auto_commit : Bool
  pub session_timeout_ms : ℤ
  pub batch_size : ℤ
  pub batch_timeout : Duration

pub record HttpConfig : Type 0 where
  pub port : ℤ
  pub read_timeout : Duration
  pub write_timeout : Duration
  pub idle_timeout : Duration

pub record CacheConfig : Type 0 where
  pub max_size : ℤ
  pub ttl_minutes : ℤ
  pub cleanup_interval : Duration

pub record AppConfig : Type 0 where
  pub graceful_shutdown_timeout : Duration
  pub log_level : String
  pub environment : String
  pub database_load_timeout : Duration
  pub shutdown_wait_timeout : Duration

pub record GeneratorConfig : Type 0 where
  pub max_orders_count : ℤ
  pub max_items_per_order : ℤ
  pub min_price : ℤ
  pub max_price : ℤ
  pub max_sale : ℤ

pub record ValidationConfig : Type 0 where
  pub order_uid_min_length : ℤ
  pub order_uid_max_length : ℤ
  pub track_number_min_length : ℤ
  pub track_number_max_length : ℤ
  pub max_payment_amount : ℤ
  pub max_items_per_order : ℤ
  pub max_item_price : ℤ

-- `F` is float64.
pub record RetryConfig (F : Type 0) : Type 0 where
  pub max_attempts : ℤ
  pub initial_delay : Duration
  pub max_delay : Duration
  pub multiplier : F

pub record DlqConfig : Type 0 where
  pub enabled : Bool
  pub topic : String
  pub max_retries : ℤ

pub record LoggerConfig : Type 0 where
  pub level : String
  pub format : String

pub record MetricsConfig : Type 0 where
  pub enabled : Bool
  pub port : ℤ
  pub path : String

pub record Config (F : Type 0) : Type 0 where
  pub database : DatabaseConfig
  pub kafka : KafkaConfig
  pub http : HttpConfig
  pub cache : CacheConfig
  pub app : AppConfig
  pub generator : GeneratorConfig
  pub validation : ValidationConfig
  pub retry : RetryConfig F
  pub dlq : DlqConfig
  pub logger : LoggerConfig
  pub metrics : MetricsConfig

-- `strconv.ParseBool`
unfoldable pub parse_bool : String → Option Bool
unfolding one_of
parse_bool s =
    if one_of ("1" ∷ "t" ∷ "T" ∷ "TRUE" ∷ "true" ∷ "True" ∷ []) (codes s)
    then some true
    else if one_of ("0" ∷ "f" ∷ "F" ∷ "FALSE" ∷ "false" ∷ "False" ∷ []) (codes s)
    then some false
    else none

prepend : Text → List String → List String
prepend c [] = c ∷ []
prepend c (s ∷ ss) = (join c s) ∷ ss
  where
    join : Text → Text → Text
    join String.[] t = t
    join (String.◌∷◌ a r) t = String.◌∷◌ a (join r t)

-- `strings.Split(s, ",")`
unfoldable pub split_commas : String → List String
unfolding prepend
split_commas String.[] = "" ∷ []
split_commas (String.◌∷◌ c s) =
    let rest = split_commas s in
    if code c == b',' then "" ∷ rest else prepend (String.◌∷◌ c String.[]) rest

-- The value of a variable that is set and not empty and that the parser reads; the default otherwise.
parsed_or {ℓ} : {A : Type ℓ} → (String → Option A) → String → A → A
parsed_or parse value default = if str_eq value "" then default else get_or (parse value) default

-- `env k` is `os.Getenv(k)`, after the .env file was read.
module _ (env : String → String) where
  unfoldable pub get_env : String → String → String
  get_env key default = if str_eq (env key) "" then default else env key

  unfoldable pub get_env_as_int : String → ℤ → ℤ
  unfolding parsed_or
  get_env_as_int key default = parsed_or (λ s. atoi (codes s)) (env key) default

  unfoldable pub get_env_as_bool : String → Bool → Bool
  unfolding parsed_or
  get_env_as_bool key default = parsed_or parse_bool (env key) default

  module _ (parse_duration : String → Option Duration) where
    unfoldable pub get_env_as_duration : String → Duration → Duration
    unfolding parsed_or
    get_env_as_duration key default = parsed_or parse_duration (env key) default

  module _ {F : Type 0} (parse_float : String → Option F) where
    unfoldable pub get_env_as_float : String → F → F
    unfolding parsed_or
    get_env_as_float key default = parsed_or parse_float (env key) default
