-- ===== src/Metrics/Tests.antt =====
-- Runs of the metrics (internal/metrics/metrics.go), and their theorems at concrete inputs.
use order_flow.Prelude.{
  ◌≡◌, refl, Bool, true, false, not, ◌&&◌, ◌||◌, ℕ, pos, List, [], ◌∷◌, String, str_eq,
  if◌then◌else◌, leb,
}
use order_flow.Http.{Response, set_header, write_header, write, sent_status}
use order_flow.Metrics.{
  Metric, new, registered, Request, updates, http_middleware, pass_on, serve, wrapped,
}

program : Unit {0}
unfolding new registered updates http_middleware pass_on serve sent_status
program = tt

abbrev is_there : String → List Metric → Bool
is_there name [] = false
is_there name (m ∷ ms) = str_eq m.name name || is_there name ms

abbrev distinct : List Metric → Bool
distinct [] = true
distinct (m ∷ ms) = not (is_there m.name ms) && distinct ms

-- The names are distinct: registering does not panic.
all_distinct : distinct (registered new) ≡ true
unfolding program
all_distinct = refl

abbrev status_text : ℕ → String
status_text code = if leb 400 code then "error" else "OK"

abbrev request : Request
request = record { method = "GET"; path = "/order/x"; content_length = pos 0 }

abbrev calls : Response
calls = set_header "Content-Type" "text/plain" ∷ write_header 404 ∷ write "no" ∷ write "ne" ∷ []

abbrev two : String → ℕ
two body = 2

-- A second WriteHeader, which net/http ignores, is counted.
superfluous : (serve two (write "ok" ∷ write_header 500 ∷ []) wrapped).status_code ≡ 500
unfolding program
superfluous = refl
