-- ===== src/Config/Sections.antt =====
-- Which configurations the validator of internal/config/validator.go accepts.
use order_flow.Prelude.{
  ℕ, ◌≤◌, List, [], ◌∷◌, ◌⊎◌, refl, ◌≡◌, ◌≢◌, ◌↔◌, Bool, true, false, not, ◌&&◌, none, String, ℤ,
  pos, ◌≤ℤ◌, ◌<ℤ◌, ltb_ℤ, arith, All, eq_iff, str_eq,
}
use order_flow.Strings.{codes, strip_prefix, has_prefix, to_lower, eqb_codes, one_of}
use order_flow.Config.{
  DatabaseConfig, HttpConfig, CacheConfig, DlqConfig, LoggerConfig, MetricsConfig,
}
use order_flow.Config.Checks.{IsPassed, run_checks-none}
use order_flow.Config.Validator.{
  bad_port, not_positive, valid_levels, valid_formats, all_path_codes, matches_path, five_minutes,
  database_checks, validate_database, cache_checks, validate_cache, http_checks, validate_http,
  dlq_checks, validate_dlq, logger_checks, validate_logger, metrics_checks, validate_metrics,
}

abbrev pub IsPort : ℤ → Type 0
IsPort p = (pos 1 ≤ℤ p) × (p ≤ℤ pos 65535)

abbrev pub IsPositive : ℤ → Type 0
IsPositive n = pos 0 <ℤ n

pub empty_iff : (s : String) → (str_eq s "" ≡ false) ↔ (s ≢ "")
empty_iff s = ground (arith, eq_iff s "")

IsPort-iff : (p : ℤ) → (bad_port p ≡ false) ↔ IsPort p
IsPort-iff p = ground arith

pub positive_iff : (n : ℤ) → (not_positive n ≡ false) ↔ IsPositive n
positive_iff n = ground arith

pub le_iff : (a b : ℤ) → (ltb_ℤ b a ≡ false) ↔ (a ≤ℤ b)
le_iff a b = ground arith

true_iff : (b : Bool) → (not b ≡ false) ↔ (b ≡ true)
true_iff b = ground arith

enabled_iff : (on : Bool) (s : String) → ((on && str_eq s "") ≡ false) ↔ (on ≡ true → s ≢ "")
enabled_iff on s = ground (arith, eq_iff s "")

pub compose : {P Q R : Type 0} → P ↔ Q → Q ↔ R → P ↔ R
compose f g = (λ p. g.0 (f.0 p), λ r. f.1 (g.1 r))

pub record AcceptsDatabase (cfg : DatabaseConfig) : Type 0 where
  pub host : cfg.host ≢ ""
  pub port : IsPort cfg.port
  pub user : cfg.user ≢ ""
  pub password : cfg.password ≢ ""
  pub database : cfg.database ≢ ""
  pub open_conns : IsPositive cfg.max_open_conns
  pub idle_conns : IsPositive cfg.max_idle_conns
  pub lifetime : IsPositive cfg.conn_max_lifetime
  pub idle_le_open : cfg.max_idle_conns ≤ℤ cfg.max_open_conns

database_lem : (cfg : DatabaseConfig) → All IsPassed (database_checks cfg) ↔ AcceptsDatabase cfg
unfolding database_checks
database_lem cfg = (
  λ h. record {
    host = (empty_iff cfg.host).0 h.0;
    port = (IsPort-iff cfg.port).0 h.1.0;
    user = (empty_iff cfg.user).0 h.1.1.0;
    password = (empty_iff cfg.password).0 h.1.1.1.0;
    database = (empty_iff cfg.database).0 h.1.1.1.1.0;
    open_conns = (positive_iff cfg.max_open_conns).0 h.1.1.1.1.1.0;
    idle_conns = (positive_iff cfg.max_idle_conns).0 h.1.1.1.1.1.1.0;
    lifetime = (positive_iff cfg.conn_max_lifetime).0 h.1.1.1.1.1.1.1.0;
    idle_le_open = (le_iff cfg.max_idle_conns cfg.max_open_conns).0 h.1.1.1.1.1.1.1.1.0;
  },
  λ a. (
    (empty_iff cfg.host).1 a.host,
    (
      (IsPort-iff cfg.port).1 a.port,
      (
        (empty_iff cfg.user).1 a.user,
        (
          (empty_iff cfg.password).1 a.password,
          (
            (empty_iff cfg.database).1 a.database,
            (
              (positive_iff cfg.max_open_conns).1 a.open_conns,
              (
                (positive_iff cfg.max_idle_conns).1 a.idle_conns,
                (
                  (positive_iff cfg.conn_max_lifetime).1 a.lifetime,
                  ((le_iff cfg.max_idle_conns cfg.max_open_conns).1 a.idle_le_open, tt),
                ),
              ),
            ),
          ),
        ),
      ),
    ),
  ),
)

pub validate_database-eq_none :
    (cfg : DatabaseConfig) → (validate_database cfg ≡ none) ↔ AcceptsDatabase cfg
unfolding validate_database
validate_database-eq_none cfg = compose (run_checks-none (database_checks cfg)) (database_lem cfg)

pub record AcceptsCache (cfg : CacheConfig) : Type 0 where
  pub ttl : IsPositive cfg.ttl_minutes
  pub size : IsPositive cfg.max_size
  pub interval : IsPositive cfg.cleanup_interval

cache_lem : (cfg : CacheConfig) → All IsPassed (cache_checks cfg) ↔ AcceptsCache cfg
unfolding cache_checks
cache_lem cfg = (
  λ h. record {
    ttl = (positive_iff cfg.ttl_minutes).0 h.0;
    size = (positive_iff cfg.max_size).0 h.1.0;
    interval = (positive_iff cfg.cleanup_interval).0 h.1.1.0;
  },
  λ a. (
    (positive_iff cfg.ttl_minutes).1 a.ttl,
    ((positive_iff cfg.max_size).1 a.size, ((positive_iff cfg.cleanup_interval).1 a.interval, tt)),
  ),
)

pub validate_cache-eq_none : (cfg : CacheConfig) → (validate_cache cfg ≡ none) ↔ AcceptsCache cfg
unfolding validate_cache
validate_cache-eq_none cfg = compose (run_checks-none (cache_checks cfg)) (cache_lem cfg)

pub record AcceptsHttp (cfg : HttpConfig) : Type 0 where
  pub port : IsPort cfg.port
  pub read : IsPositive cfg.read_timeout
  pub write : IsPositive cfg.write_timeout
  pub idle : IsPositive cfg.idle_timeout
  pub read_limit : cfg.read_timeout ≤ℤ pos 300000000000
  pub write_limit : cfg.write_timeout ≤ℤ pos 300000000000

http_lem : (cfg : HttpConfig) → All IsPassed (http_checks cfg) ↔ AcceptsHttp cfg
unfolding http_checks
http_lem cfg = (
  λ h. record {
    port = (IsPort-iff cfg.port).0 h.0;
    read = (positive_iff cfg.read_timeout).0 h.1.0;
    write = (positive_iff cfg.write_timeout).0 h.1.1.0;
    idle = (positive_iff cfg.idle_timeout).0 h.1.1.1.0;
    read_limit = (le_iff cfg.read_timeout five_minutes).0 h.1.1.1.1.0;
    write_limit = (le_iff cfg.write_timeout five_minutes).0 h.1.1.1.1.1.0;
  },
  λ a. (
    (IsPort-iff cfg.port).1 a.port,
    (
      (positive_iff cfg.read_timeout).1 a.read,
      (
        (positive_iff cfg.write_timeout).1 a.write,
        (
          (positive_iff cfg.idle_timeout).1 a.idle,
          (
            (le_iff cfg.read_timeout five_minutes).1 a.read_limit,
            ((le_iff cfg.write_timeout five_minutes).1 a.write_limit, tt),
          ),
        ),
      ),
    ),
  ),
)

pub validate_http-eq_none : (cfg : HttpConfig) → (validate_http cfg ≡ none) ↔ AcceptsHttp cfg
unfolding validate_http
validate_http-eq_none cfg = compose (run_checks-none (http_checks cfg)) (http_lem cfg)

pub record AcceptsDlq (cfg : DlqConfig) : Type 0 where
  pub topic : cfg.enabled ≡ true → cfg.topic ≢ ""
  pub retries : IsPositive cfg.max_retries

dlq_lem : (cfg : DlqConfig) → All IsPassed (dlq_checks cfg) ↔ AcceptsDlq cfg
unfolding dlq_checks
dlq_lem cfg = (
  λ h. record {
    topic = (enabled_iff cfg.enabled cfg.topic).0 h.0;
    retries = (positive_iff cfg.max_retries).0 h.1.0;
  },
  λ a. (
    (enabled_iff cfg.enabled cfg.topic).1 a.topic,
    ((positive_iff cfg.max_retries).1 a.retries, tt),
  ),
)

pub validate_dlq-eq_none : (cfg : DlqConfig) → (validate_dlq cfg ≡ none) ↔ AcceptsDlq cfg
unfolding validate_dlq
validate_dlq-eq_none cfg = compose (run_checks-none (dlq_checks cfg)) (dlq_lem cfg)

-- One of the names, in letters of any case.
abbrev pub IsName : List String → String → Type 0
IsName [] s = ⊥
IsName (n ∷ ns) s = (to_lower (codes s) ≡ codes n) ⊎ IsName ns s

eqb_codes_iff : (xs ys : List ℕ) → (eqb_codes xs ys ≡ true) ↔ (xs ≡ ys)
unfolding eqb_codes
eqb_codes_iff [] [] = (λ h. refl, λ h. refl)
eqb_codes_iff [] (y ∷ ys) = (λ h. cc, λ h. cc)
eqb_codes_iff (x ∷ xs) [] = (λ h. cc, λ h. cc)
eqb_codes_iff (x ∷ xs) (y ∷ ys) = ground (arith, eqb_codes_iff xs ys)

IsName-iff : (ns : List String) (s : String) → (one_of ns (to_lower (codes s)) ≡ true) ↔ IsName ns s
unfolding one_of
IsName-iff [] s = (λ h. cc, λ h. absurd h)
IsName-iff (n ∷ ns) s =
    ground (arith, IsName-iff ns s, eqb_codes_iff (codes n) (to_lower (codes s)))

pub record AcceptsLogger (cfg : LoggerConfig) : Type 0 where
  pub level :
      IsName ("debug" ∷ "info" ∷ "warn" ∷ "warning" ∷ "error" ∷ "fatal" ∷ "panic" ∷ []) cfg.level
  pub format : IsName ("json" ∷ "text" ∷ []) cfg.format

listed_iff :
    (ns : List String) (s : String) → (not (one_of ns (to_lower (codes s))) ≡ false) ↔ IsName ns s
listed_iff ns s = compose (true_iff (one_of ns (to_lower (codes s)))) (IsName-iff ns s)

logger_lem : (cfg : LoggerConfig) → All IsPassed (logger_checks cfg) ↔ AcceptsLogger cfg
unfolding logger_checks
logger_lem cfg = (
  λ h. record {
    level = (listed_iff valid_levels cfg.level).0 h.0;
    format = (listed_iff valid_formats cfg.format).0 h.1.0;
  },
  λ a. (
    (listed_iff valid_levels cfg.level).1 a.level,
    ((listed_iff valid_formats cfg.format).1 a.format, tt),
  ),
)

pub validate_logger-eq_none :
    (cfg : LoggerConfig) → (validate_logger cfg ≡ none) ↔ AcceptsLogger cfg
unfolding validate_logger
validate_logger-eq_none cfg = compose (run_checks-none (logger_checks cfg)) (logger_lem cfg)

-- A letter, a digit, a slash, an underscore or a hyphen.
abbrev pub IsPathCode : ℕ → Type 0
IsPathCode c =
    ((b'a' ≤ c) × (c ≤ b'z'))
    ⊎ ((b'A' ≤ c) × (c ≤ b'Z'))
    ⊎ ((b'0' ≤ c) × (c ≤ b'9'))
    ⊎ (c ≡ b'/')
    ⊎ (c ≡ b'_')
    ⊎ (c ≡ b'-')

-- A slash, and then such characters only.
abbrev pub IsPath : List ℕ → Type 0
IsPath [] = ⊥
IsPath (c ∷ cs) = (c ≡ b'/') × All IsPathCode cs

all_path_codes_iff : (cs : List ℕ) → (all_path_codes cs ≡ true) ↔ All IsPathCode cs
unfolding all_path_codes
all_path_codes_iff [] = (λ h. tt, λ h. refl)
all_path_codes_iff (c ∷ cs) = ground (arith, all_path_codes_iff cs)

matches_path_iff : (cs : List ℕ) → (matches_path cs ≡ true) ↔ IsPath cs
unfolding matches_path
matches_path_iff [] = (λ h. cc, λ h. absurd h)
matches_path_iff (c ∷ cs) = ground (arith, all_path_codes_iff cs)

IsPath-nonempty : (s : String) → IsPath (codes s) → s ≢ ""
IsPath-nonempty String.[] h = absurd h
IsPath-nonempty (String.◌∷◌ c s) h = λ e. cc

IsPath-slash : (s : String) → IsPath (codes s) → has_prefix s "/" ≡ true
unfolding has_prefix strip_prefix
IsPath-slash String.[] h = absurd h
IsPath-slash (String.◌∷◌ c s) (h, all) = ground (arith, h)

pub record AcceptsMetrics (cfg : MetricsConfig) : Type 0 where
  pub port : IsPort cfg.port
  pub path : IsPath (codes cfg.path)

metrics_lem : (cfg : MetricsConfig) → All IsPassed (metrics_checks cfg) ↔ AcceptsMetrics cfg
unfolding metrics_checks
metrics_lem cfg = (
  λ h. record {
    port = (IsPort-iff cfg.port).0 h.0;
    path =
        (matches_path_iff (codes cfg.path)).0
          ((true_iff (matches_path (codes cfg.path))).0 h.1.1.1.0);
  },
  λ a. (
    (IsPort-iff cfg.port).1 a.port,
    (
      (empty_iff cfg.path).1 (IsPath-nonempty cfg.path a.path),
      (
        (true_iff (has_prefix cfg.path "/")).1 (IsPath-slash cfg.path a.path),
        (
          (true_iff (matches_path (codes cfg.path))).1
              ((matches_path_iff (codes cfg.path)).1 a.path),
          tt,
        ),
      ),
    ),
  ),
)

pub validate_metrics-eq_none :
    (cfg : MetricsConfig) → (validate_metrics cfg ≡ none) ↔ AcceptsMetrics cfg
unfolding validate_metrics
validate_metrics-eq_none cfg = compose (run_checks-none (metrics_checks cfg)) (metrics_lem cfg)
