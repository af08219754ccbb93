-- ===== src/OrderValidator/Tests.antt =====
-- The theorems on the order validator (internal/validator/validator.go) at concrete inputs.
use order_flow.Prelude.{false, ◌≡◌, ◌↔◌, refl, none, some, [], ◌∷◌, str_eq, if◌then◌else◌, arith}
use order_flow.Samples.{sample_order}
use order_flow.Model.{Order}
use order_flow.Errors.{GoError, str, validation, new_with_code}
use order_flow.Errors.Wrapping.{is_app}
use order_flow.OrderValidator.{StructResult, accepted, field_errors, refused, judge, validate}
use order_flow.OrderValidator.Verdicts.{validate-eq_accepted}

-- A package that refuses the orders without a UID.
abbrev needs_uid : Order → StructResult
needs_uid o =
    if str_eq o.order_uid ""
    then field_errors (
        record { field = "OrderUID"; tag = "required" }
        ∷ record { field = "Payment"; tag = "min" }
        ∷ [])
    else accepted

abbrev the_error : GoError
the_error =
    new_with_code validation
      (str "validation failed: "
        ∷ str "field '"
        ∷ str "OrderUID"
        ∷ str "' failed validation: "
        ∷ str "required"
        ∷ str "; "
        ∷ str "field '"
        ∷ str "Payment"
        ∷ str "' failed validation: "
        ∷ str "min"
        ∷ [])
      "VALIDATION_FAILED"

validates : validate needs_uid (some (sample_order "")) ≡ some the_error
unfolding validate judge
validates = refl

validate-eq_accepted_example :
    (validate needs_uid (some (sample_order "")) ≡ none)
    ↔ ((x : Order) × (some (sample_order "") ≡ some x) × (needs_uid x ≡ accepted))
validate-eq_accepted_example = validate-eq_accepted needs_uid (some (sample_order ""))

never_refused : (x : Order) (f : GoError) → needs_uid x ≡ refused f → is_app f ≡ false
never_refused x f h = ground arith
