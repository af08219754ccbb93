-- ===== src/OrderValidator.antt =====
-- The order validator of internal/validator/validator.go. What `Struct` of the package
-- go-playground/validator makes of an order is a parameter.
pub mod Verdicts
mod Tests
use order_flow.Prelude.{◌≡◌, Option, none, some, List, [], ◌∷◌, ◌++◌, map, String}
use order_flow.Model.{Order}
use order_flow.Errors.{GoError, Message, str, validation, new, new_with_code, wrap}

-- `validator.FieldError`, as far as the service reads it.
pub record FieldError : Type 0 where
  pub field : String
  pub tag : String

-- What `Struct` returns: nil, `ValidationErrors`, or another error.
pub data StructResult : Type 0 where
  accepted : StructResult
  field_errors : List FieldError → StructResult
  refused : GoError → StructResult

field_message : FieldError → Message
field_message f = str "field '" ∷ str f.field ∷ str "' failed validation: " ∷ str f.tag ∷ []

-- `strings.Join(messages, "; ")`
join_messages : List Message → Message
join_messages [] = []
join_messages (m ∷ []) = m
join_messages (m ∷ n ∷ ms) = m ++ (str "; " ∷ join_messages (n ∷ ms))

unfoldable pub judge : StructResult → Option GoError
unfolding field_message join_messages
judge accepted = none
judge (field_errors fs) = some (
    new_with_code validation (str "validation failed: " ∷ join_messages (map field_message fs))
      "VALIDATION_FAILED")
judge (refused e) = wrap (some e) validation (str "validation error" ∷ [])

-- `Validate`; the order is `none` where it is nil.
unfoldable pub validate : (Order → StructResult) → Option Order → Option GoError
validate check none = some (new validation (str "order is nil" ∷ []))
validate check (some o) = judge (check o)
