-- ===== src/Config/Overall.antt =====
-- Validate and validateRetry of internal/config/validator.go: the whole configuration, whose retry
-- multiplier is a float. `none` is a nil error.
use order_flow.Prelude.{Option, none, some, List, [], ◌∷◌, String, pos, ltb_ℤ}
use order_flow.Strings.{is_some}
use order_flow.Errors.{Message, str, GoError, validation, new_with_code}
use order_flow.Floats.{Floats}
use order_flow.Config.{Config, RetryConfig}
use order_flow.Config.Checks.{Check, run_checks}
use order_flow.Config.Validator.{
  check, not_positive, or_text, validate_database, validate_kafka, validate_cache, validate_http,
  validate_dlq, validate_logger, validate_metrics,
}

unfoldable pub section_check : String → Option Message → Check
section_check name e = record { fault = is_some e; message = str name ∷ str ": " ∷ or_text e }

unfoldable pub failed : Option Message → Option GoError
failed none = none
failed (some m) = some (
    new_with_code validation (str "Configuration validation failed: " ∷ m)
      "CONFIG_VALIDATION_FAILED")

module _ (fl : Floats) where
  open fl use {Float, of_int, le}

  unfoldable pub retry_checks : RetryConfig Float → List Check
  retry_checks cfg =
      check (not_positive cfg.max_attempts) "max_attempts must be greater than 0"
      ∷ check (ltb_ℤ (pos 10) cfg.max_attempts) "max_attempts should not exceed 10"
      ∷ check (not_positive cfg.initial_delay) "initial_delay must be greater than 0"
      ∷ check (not_positive cfg.max_delay) "max_delay must be greater than 0"
      ∷ check (le cfg.multiplier (of_int (pos 0))) "multiplier must be greater than 0"
      ∷ check (ltb_ℤ cfg.max_delay cfg.initial_delay)
          "initial_delay cannot be greater than max_delay"
      ∷ []

  unfoldable pub validate_retry : RetryConfig Float → Option Message
  unfolding run_checks retry_checks
  validate_retry cfg = run_checks (retry_checks cfg)

  unfoldable pub section_checks : Config Float → List Check
  unfolding section_check or_text
  section_checks cfg =
      section_check "Database" (validate_database cfg.database)
      ∷ section_check "Kafka" (validate_kafka cfg.kafka)
      ∷ section_check "Cache" (validate_cache cfg.cache)
      ∷ section_check "HTTP" (validate_http cfg.http)
      ∷ section_check "Retry" (validate_retry cfg.retry)
      ∷ section_check "DLQ" (validate_dlq cfg.dlq)
      ∷ section_check "Logger" (validate_logger cfg.logger)
      ∷ section_check "Metrics" (validate_metrics cfg.metrics)
      ∷ []

  unfoldable pub validate : Config Float → Option GoError
  unfolding run_checks section_checks failed
  validate cfg = failed (run_checks (section_checks cfg))
