-- ===== src/Health/Status.antt =====
-- What the health checks (internal/health/health.go) answer.
use order_flow.Prelude.{
  ◌∙◌, Bool-cases, inl, inr, ◌≡◌, refl, arith, Bool, true, false, ◌||◌, Option, none, some, List,
  [], ◌∷◌, Dict, insert, lookup, lookup-insert, str_eq, String, if◌then◌else◌,
}
use order_flow.Errors.{GoError}
use order_flow.Http.{sent_status, final_status, status_service_unavailable}
use order_flow.Health.{
  Checker, Health, Value, result, overall_status, status_of, status_ok, check_all, check, handler,
}

abbrev is_failure : Option GoError → Bool
is_failure none = false
is_failure (some e) = true

-- Whether a checker fails.
abbrev pub any_fails : List Checker → Bool
any_fails [] = false
any_fails (c ∷ rest) = is_failure c.outcome || any_fails rest

abbrev pub or_else {ℓ} : {A : Type ℓ} → Option A → Option A → Option A
or_else (some a) b = some a
or_else none b = b

or_else-none {ℓ} : {A : Type ℓ} (a : Option A) → or_else a none ≡ a
or_else-none none = refl
or_else-none (some a) = refl

-- The result of the last checker of a name.
abbrev pub last_result : String → List Checker → Option Value
last_result name [] = none
last_result name (c ∷ rest) =
    or_else (last_result name rest) (
      if str_eq c.name name then some (result (status_of c.outcome) c.duration c.outcome) else none)

check_all-overall :
    (cs : List Checker) (results : Dict Value) (overall : String)
    → (check_all cs results overall).1 ≡ (if any_fails cs then "unhealthy" else overall)
unfolding check_all
check_all-overall [] results overall = refl
check_all-overall (c ∷ cs) results overall =
    let value = result (status_of c.outcome) c.duration c.outcome in
    let next : String = elim c.outcome [ none ↦ overall | some e ↦ "unhealthy" ] in
    ground (arith, check_all-overall cs (insert c.name value results) next)

check_all-lookup :
    (cs : List Checker) (results : Dict Value) (overall name : String)
    → lookup name (check_all cs results overall).0
      ≡ or_else (last_result name cs) (lookup name results)
unfolding check_all
check_all-lookup [] results overall name = refl
check_all-lookup (c ∷ cs) results overall name =
    let value = result (status_of c.outcome) c.duration c.outcome in
    let next : String = elim c.outcome [ none ↦ overall | some e ↦ "unhealthy" ] in
    ground (
      arith,
      check_all-lookup cs (insert c.name value results) next name,
      lookup-insert c.name name value results,
    )

overall-lookup :
    (h : Health)
    → lookup "overall" (check h) ≡ some (overall_status (check_all h.checkers [] "healthy").1)
unfolding check
overall-lookup h = ground (
  arith,
  lookup-insert "overall" "overall" (overall_status (check_all h.checkers [] "healthy").1)
      (check_all h.checkers [] "healthy").0,
)

-- The health endpoint answers 503 exactly if a checker fails, also if a checker is named "overall", and
-- 200 otherwise.
pub handler-status :
    (encode : Option Value → Dict Value → String) (h : Health)
    → final_status (handler encode h)
      ≡ (if any_fails h.checkers then status_service_unavailable else status_ok)
unfolding handler sent_status
handler-status encode h = elim (Bool-cases (any_fails h.checkers)) [
  | inl f ↦ rw (overall-lookup h, check_all-overall h.checkers [] "healthy", f) refl
  | inr f ↦ rw (overall-lookup h, check_all-overall h.checkers [] "healthy", f) refl
]

-- Under a name other than "overall" the results hold what the last checker of the name answered, and
-- nothing if there is none.
check-lookup :
    (h : Health) (name : String)
    → str_eq "overall" name ≡ false
    → lookup name (check h) ≡ last_result name h.checkers
unfolding check lookup
check-lookup h name other =
    let results = (check_all h.checkers [] "healthy").0 in
    let overall = (check_all h.checkers [] "healthy").1 in
    lookup-insert "overall" name (overall_status overall) results
    ∙ rw other (check_all-lookup h.checkers [] "healthy" name)
    ∙ or_else-none (last_result name h.checkers)
