-- ===== src/Config/Tests.antt =====
-- Runs of the configuration's loader and validator (internal/config), and their theorems at concrete
-- inputs.
use order_flow.Prelude.{◌≡◌, ◌↔◌, inr, refl, none, some, [], ◌∷◌, String, ℤ, leb_ℤ, ltb_ℤ}
use order_flow.Errors.{str}
use order_flow.Floats.{Floats}
use order_flow.Config.{
  Config, get_env, get_env_as_int, get_env_as_bool, get_env_as_duration, get_env_as_float,
  split_commas, parse_bool,
}
use order_flow.Strings.{atoi, split_host_port, one_of, to_lower, has_prefix}
use order_flow.Config.Validator.{
  validate_host_port, validate_database, validate_kafka, validate_cache, validate_http,
  validate_dlq, validate_logger, validate_metrics, matches_path,
}
use order_flow.Config.Overall.{validate, validate_retry}
use order_flow.Config.Accepted.{Accepts, validate-eq_none}
use order_flow.Config.Load.{read_config, load, load-Accepts}

-- Whole numbers in the place of floats.
abbrev whole : Floats
whole = record {
  Float = ℤ;
  of_int = λ n. n;
  to_int = λ x. x;
  add = λ x y. x;
  sub = λ x y. x;
  mul = λ x y. x;
  div = λ x y. x;
  pow = λ x y. x;
  lt = ltb_ℤ;
  le = leb_ℤ;
}

program : Unit {0}
unfolding get_env get_env_as_int get_env_as_bool get_env_as_duration get_env_as_float split_commas
    parse_bool atoi split_host_port one_of to_lower has_prefix validate validate_host_port
    validate_database validate_kafka validate_cache validate_http validate_retry validate_dlq
    validate_logger validate_metrics matches_path read_config load
program = tt

abbrev empty_env : String → String
empty_env key = ""

abbrev loaded : (String → String) → Config ℤ
loaded = read_config whole (λ s. none) (λ s. none)

splits_brokers : split_commas "a:1,b:2" ≡ "a:1" ∷ "b:2" ∷ []
unfolding program
splits_brokers = refl

-- The defaults are valid.
load_defaults : load whole (λ s. none) (λ s. none) empty_env ≡ inr (loaded empty_env)
unfolding program
load_defaults = refl

bad_address :
    validate_host_port "localhost:99999" ≡ some (str "port must be between 1 and 65535" ∷ [])
unfolding program
bad_address = refl

validate-eq_none_example :
    (validate whole (loaded empty_env) ≡ none) ↔ Accepts whole (loaded empty_env)
validate-eq_none_example = validate-eq_none whole (loaded empty_env)

load-Accepts_example : Accepts whole (loaded empty_env)
load-Accepts_example =
    load-Accepts whole (λ s. none) (λ s. none) empty_env (loaded empty_env) load_defaults

good_address : validate_host_port "localhost:9092" ≡ none
unfolding program
good_address = refl
