-- ===== src/Health/Tests.antt =====
-- Runs of the health checks (internal/health/health.go), and their theorems at concrete inputs.
use order_flow.Prelude.{◌≡◌, refl, pos, none, some, [], ◌∷◌}
use order_flow.Errors.{GoError, plain, str}
use order_flow.Http.{final_status, status_service_unavailable}
use order_flow.Health.{Checker, Health, new, add_checker, handler}
use order_flow.Health.Status.{handler-status}

abbrev refused : GoError
refused = plain (str "connection refused" ∷ [])

abbrev database : Checker
database = record { name = "database"; outcome = some refused; duration = pos 5 }

abbrev cache : Checker
cache = record { name = "overall"; outcome = none; duration = pos 1 }

abbrev health : Health
health = record { checkers = database ∷ cache ∷ [] }

added : add_checker cache (add_checker database new) ≡ health
unfolding add_checker new
added = refl

handler-status_example :
    final_status (handler (λ overall checks. "") health) ≡ status_service_unavailable
handler-status_example = handler-status (λ overall checks. "") health
