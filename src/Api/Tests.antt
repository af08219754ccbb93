-- ===== src/Api/Tests.antt =====
-- The theorems on the HTTP server (internal/http/api.go) at concrete inputs.
use order_flow.Prelude.{
  ◌+◌, ◌≡◌, refl, none, some, [], ◌∷◌, String, Time, pos, if◌then◌else◌, ltb, lookup, arith,
}
use order_flow.Samples.{sample_order}
use order_flow.Http.{set_header, write_header, write, status_created}
use order_flow.Model.{Order}
use order_flow.Cache.{OrderCache, new_order_cache, get, begin_get, finish_get, set}
use order_flow.Api.{Fetched, ApiServices, serve_http, handle_create_order}
use order_flow.Api.Orders.{get_request, post_request, serve_http-posted, serve_http-fetched}

abbrev order_a : Order
order_a = sample_order "order-a"

abbrev fetch : String → Fetched
fetch uid = record { order = some order_a; error = none }

abbrev services : ApiServices
services = record {
  get_order_by_uid = some fetch;
  encode_order = λ o. some o.order_uid;
  encode_created = λ uid. some uid;
  encode_health = λ n. some "ok";
  serve_static = λ r. [];
}

abbrev empty : OrderCache
empty = new_order_cache (pos 2) (pos 100)

serve_http-posted_example :
    (serve_http services 50 60
      (get_request "order-a")
      (serve_http services 40 45 (post_request order_a) empty).0).1
    ≡ set_header "Content-Type" "application/json" ∷ write "order-a" ∷ []
unfolding new_order_cache
serve_http-posted_example =
    serve_http-posted services 40 45 50 60 100 order_a "order-a" empty refl refl (omega arith) refl
      refl

serve_http-fetched_example :
    ((serve_http services 40 45 (get_request "order-a") empty).1
      ≡ set_header "Content-Type" "application/json" ∷ write "order-a" ∷ [])
    × ((later : Time)
        → (get later "order-a" (serve_http services 40 45 (get_request "order-a") empty).0).1
          ≡ (if ltb (45 + 100) later then none else some order_a))
unfolding new_order_cache get begin_get finish_get lookup
serve_http-fetched_example =
    serve_http-fetched services 40 45 100 order_a "order-a" empty fetch refl refl (omega arith) refl
      refl refl refl

-- An order without a UID is answered as created, and not stored.
created_nothing : serve_http services 40 45 (post_request (sample_order "")) empty ≡ (
  empty,
  set_header "Content-Type" "application/json" ∷ write_header status_created ∷ write "" ∷ [],
)
unfolding serve_http handle_create_order set new_order_cache
created_nothing = refl
