-- ===== src/OrderValidator/Verdicts.antt =====
-- What the order validator (internal/validator/validator.go) accepts, and the errors that it returns.
use mathlib.Core.Option.{some-injective}
use order_flow.Prelude.{◌≡◌, ◌↔◌, refl, sym, ap, ◌∙◌, false, Option, none, some, arith}
use order_flow.Model.{Order}
use order_flow.Http.{status_bad_request}
use order_flow.Errors.{
  GoError, plain, app, app_caused, annotated, AppInfo, validation, get_default_http_status, new,
  new_with_code, wrap,
}
use order_flow.Errors.Wrapping.{is_app}
use order_flow.OrderValidator.{StructResult, accepted, field_errors, refused, judge, validate}

-- The information of the outermost error, if it is one of the application.
abbrev pub error_info : GoError → Option AppInfo
error_info (plain m) = none
error_info (app a) = some a
error_info (app_caused a e) = some a
error_info (annotated m e) = none

judge-eq_accepted : (r : StructResult) → (judge r ≡ none) ↔ (r ≡ accepted)
unfolding judge wrap
judge-eq_accepted accepted = ground arith
judge-eq_accepted (field_errors fs) = ground arith
judge-eq_accepted (refused e) = ground arith

-- Information that says that an order is not valid, with the status 400.
abbrev pub SaysInvalid : AppInfo → Type 0
SaysInvalid info = (info.type ≡ validation) × (info.http_status ≡ status_bad_request)

invalid_info :
    {e f : GoError} {a : AppInfo}
    → some f ≡ some e
    → error_info f ≡ some a
    → SaysInvalid a
    → (info : AppInfo) × (error_info e ≡ some info) × SaysInvalid info
invalid_info {e} {f} {a} h at says = (a, ap error_info (sym (some-injective f e h)) ∙ at, says)

judge-SaysInvalid :
    (r : StructResult) (e : GoError)
    → ((f : GoError) → r ≡ refused f → is_app f ≡ false)
    → judge r ≡ some e
    → (info : AppInfo) × (error_info e ≡ some info) × SaysInvalid info
unfolding judge wrap new_with_code get_default_http_status
judge-SaysInvalid accepted e foreign h = ground arith
judge-SaysInvalid (field_errors fs) e foreign h = invalid_info h refl (refl, refl)
judge-SaysInvalid (refused (app a)) e foreign h = ground (arith, foreign (app a) refl)
judge-SaysInvalid (refused (app_caused a c)) e foreign h =
    ground (arith, foreign (app_caused a c) refl)
judge-SaysInvalid (refused (plain m)) e foreign h = invalid_info h refl (refl, refl)
judge-SaysInvalid (refused (annotated m c)) e foreign h = invalid_info h refl (refl, refl)

-- An order is accepted exactly where there is one and the package accepts it.
pub validate-eq_accepted :
    (check : Order → StructResult) (o : Option Order)
    → (validate check o ≡ none) ↔ ((x : Order) × (o ≡ some x) × (check x ≡ accepted))
unfolding validate
validate-eq_accepted check none = (λ h. ground arith, λ (x, e, a). ground arith)
validate-eq_accepted check (some x) =
    let both = judge-eq_accepted (check x) in
    (λ h. (x, refl, both.0 h), λ (y, e, a). both.1 (ap check (some-injective x y e) ∙ a))

-- Every error that is returned says that it is a validation error, with the status 400, if the errors of
-- the package are none of the application's.
validate-status :
    (check : Order → StructResult) (o : Option Order) (e : GoError)
    → ((x : Order) (f : GoError) → check x ≡ refused f → is_app f ≡ false)
    → validate check o ≡ some e
    → (info : AppInfo) × (error_info e ≡ some info) × SaysInvalid info
unfolding validate new get_default_http_status
validate-status check none e foreign h = invalid_info h refl (refl, refl)
validate-status check (some x) e foreign h = judge-SaysInvalid (check x) e (foreign x) h
