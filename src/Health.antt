-- ===== src/Health.antt =====
-- The health checks of internal/health/health.go. What a checker answers and how long it takes are data
-- of the call; a duration's text and the JSON encoding are parameters.
pub mod Status
mod Tests
use order_flow.Prelude.{
  ◌≡◌, ℕ, Option, none, some, List, [], ◌∷◌, ◌++◌, Dict, insert, lookup, str_eq, String, Duration,
  if◌then◌else◌,
}
use order_flow.Errors.{GoError}
use order_flow.Http.{Response, set_header, write_header, write, status_service_unavailable}

-- A checker with the outcome of its Check, as a call of Health.Check meets it.
pub record Checker : Type 0 where
  pub name : String
  pub outcome : Option GoError
  pub duration : Duration

-- `Health`; the three checkers of the package only differ in their names.
pub record Health : Type 0 where
  pub checkers : List Checker

-- A value of the map of the results.
pub data Value : Type 0 where
  result : (status : String) (duration : Duration) (error : Option GoError) → Value
  overall_status : String → Value

unfoldable pub new : Health
new = record { checkers = [] }

unfoldable pub add_checker : Checker → Health → Health
add_checker c h = record h { checkers = h.checkers ++ (c ∷ []) }

abbrev pub status_of : Option GoError → String
status_of none = "healthy"
status_of (some e) = "unhealthy"

-- The loop of Check, with the overall status so far.
unfoldable pub check_all : List Checker → Dict Value → String → Dict Value × String
check_all [] results overall = (results, overall)
check_all (c ∷ rest) results overall =
    check_all rest (insert c.name (result (status_of c.outcome) c.duration c.outcome) results)
      (elim c.outcome [ none ↦ overall | some e ↦ "unhealthy" ])

-- `Check`
unfoldable pub check : Health → Dict Value
check h =
    let (results, overall) = check_all h.checkers [] "healthy" in
    insert "overall" (overall_status overall) results

abbrev pub status_ok : ℕ
status_ok = 200

-- `results["overall"] == "unhealthy"`, of an interface value
abbrev pub status_code : Option Value → ℕ
status_code (some (overall_status s)) =
    if str_eq s "unhealthy" then status_service_unavailable else status_ok
status_code (some (result status duration error)) = status_ok
status_code none = status_ok

-- `Handler`
unfoldable pub handler : (Option Value → Dict Value → String) → Health → Response
handler encode h =
    let results = check h in
    set_header "Content-Type" "application/json"
    ∷ write_header (status_code (lookup "overall" results))
    ∷ write (encode (lookup "overall" results) results)
    ∷ []
