-- ===== src/Errors.antt =====
-- The application errors of internal/errors/errors.go, and the errors of the standard library that
-- the other packages build. A message is the list of the pieces that are joined or formatted.
pub mod Wrapping
mod Tests
use order_flow.Prelude.{
  ℕ, ◌≡◌, Bool, true, false, Option, none, some, List, [], ◌∷◌, ◌++◌, String, ℤ,
}
use order_flow.Http.{
  status_bad_request, status_not_found, status_request_timeout, status_internal_server_error,
}

-- `other` is a value of the Go string type that is none of its constants.
pub data ErrorType : Type 0 where
  validation database kafka cache http retry dlq internal not_found timeout : ErrorType
  other : String → ErrorType

pub data Piece : Type 0 where
  str : String → Piece
  int : ℤ → Piece

abbrev pub Message : Type 0
Message = List Piece

-- The fields of `AppError` but for its cause.
pub record AppInfo : Type 0 where
  pub type : ErrorType
  pub message : Message
  pub code : String
  pub details : String
  pub http_status : ℕ

-- An `error` that is not nil: one with a text alone, an `AppError` without and with a cause, and one
-- that `fmt.Errorf` wraps by %w behind a text.
pub data GoError : Type 0 where
  plain : Message → GoError
  app : AppInfo → GoError
  app_caused : AppInfo → GoError → GoError
  annotated : Message → GoError → GoError

type_name : ErrorType → String
type_name validation = "validation"
type_name database = "database"
type_name kafka = "kafka"
type_name cache = "cache"
type_name http = "http"
type_name retry = "retry"
type_name dlq = "dlq"
type_name internal = "internal"
type_name not_found = "not_found"
type_name timeout = "timeout"
type_name (other s) = s

-- `Error()`
unfoldable pub error_text : GoError → Message
unfolding type_name
error_text (plain m) = m
error_text (app a) = str (type_name a.type) ∷ str ": " ∷ a.message
error_text (app_caused a e) =
    str (type_name a.type)
    ∷ str ": "
    ∷ (a.message ++ (str " (caused by: " ∷ (error_text e ++ (str ")" ∷ []))))
error_text (annotated m e) = m ++ error_text e

-- `Unwrap()`
unfoldable pub unwrap : GoError → Option GoError
unwrap (plain m) = none
unwrap (app a) = none
unwrap (app_caused a e) = some e
unwrap (annotated m e) = some e

unfoldable pub get_default_http_status : ErrorType → ℕ
get_default_http_status validation = status_bad_request
get_default_http_status not_found = status_not_found
get_default_http_status timeout = status_request_timeout
get_default_http_status http = status_internal_server_error
get_default_http_status database = status_internal_server_error
get_default_http_status kafka = status_internal_server_error
get_default_http_status cache = status_internal_server_error
get_default_http_status retry = status_internal_server_error
get_default_http_status dlq = status_internal_server_error
get_default_http_status internal = status_internal_server_error
get_default_http_status (other s) = status_internal_server_error

unfoldable pub new_with_code : ErrorType → Message → String → GoError
unfolding get_default_http_status
new_with_code error_type message code = app (record {
  type = error_type;
  message = message;
  code = code;
  details = "";
  http_status = get_default_http_status error_type;
})

unfoldable pub new : ErrorType → Message → GoError
unfolding get_default_http_status
new error_type message = app (record {
  type = error_type;
  message = message;
  code = "";
  details = "";
  http_status = get_default_http_status error_type;
})

unfoldable pub wrap_error : GoError → ErrorType → Message → String → GoError
unfolding get_default_http_status
wrap_error (app a) error_type message code = app a
wrap_error (app_caused a e) error_type message code = app_caused a e
wrap_error (plain m) error_type message code =
    app_caused
      (record {
        type = error_type;
        message = message;
        code = code;
        details = "";
        http_status = get_default_http_status error_type;
      })
      (plain m)
wrap_error (annotated m e) error_type message code =
    app_caused
      (record {
        type = error_type;
        message = message;
        code = code;
        details = "";
        http_status = get_default_http_status error_type;
      })
      (annotated m e)

-- `none` is a nil error. The type test sees only the outermost error.
unfoldable pub wrap_with_code : Option GoError → ErrorType → Message → String → Option GoError
unfolding wrap_error
wrap_with_code none error_type message code = none
wrap_with_code (some e) error_type message code = some (wrap_error e error_type message code)

unfoldable pub wrap : Option GoError → ErrorType → Message → Option GoError
unfolding wrap_error
wrap none error_type message = none
wrap (some e) error_type message = some (wrap_error e error_type message "")

-- The predefined errors, in the order of the source.
unfoldable pub predefined : List GoError
unfolding new_with_code
predefined =
    new_with_code validation (str "Order validation failed" ∷ []) "ORDER_VALIDATION_FAILED"
    ∷ new_with_code validation (str "Invalid order UID" ∷ []) "INVALID_ORDER_UID"
    ∷ new_with_code validation (str "Invalid track number" ∷ []) "INVALID_TRACK_NUMBER"
    ∷ new_with_code database (str "Database connection failed" ∷ []) "DB_CONNECTION_FAILED"
    ∷ new_with_code not_found (str "Order not found" ∷ []) "ORDER_NOT_FOUND"
    ∷ new_with_code database (str "Failed to save order" ∷ []) "ORDER_SAVE_FAILED"
    ∷ new_with_code kafka (str "Kafka connection failed" ∷ []) "KAFKA_CONNECTION_FAILED"
    ∷ new_with_code kafka (str "Failed to consume message" ∷ []) "MESSAGE_CONSUME_FAILED"
    ∷ new_with_code kafka (str "Failed to produce message" ∷ []) "MESSAGE_PRODUCE_FAILED"
    ∷ new_with_code cache (str "Cache connection failed" ∷ []) "CACHE_CONNECTION_FAILED"
    ∷ new_with_code cache (str "Failed to set cache value" ∷ []) "CACHE_SET_FAILED"
    ∷ new_with_code cache (str "Failed to get cache value" ∷ []) "CACHE_GET_FAILED"
    ∷ new_with_code retry (str "Retry attempts exhausted" ∷ []) "RETRY_EXHAUSTED"
    ∷ new_with_code retry (str "Retry operation failed" ∷ []) "RETRY_FAILED"
    ∷ new_with_code dlq (str "Failed to send message to DLQ" ∷ []) "DLQ_SEND_FAILED"
    ∷ new_with_code dlq (str "Failed to process DLQ message" ∷ []) "DLQ_PROCESS_FAILED"
    ∷ []
