-- ===== src/Api.antt =====
-- The HTTP server of internal/http/api.go, over the cache of internal/cache/cache.go. The repository,
-- the JSON encodings and the file server are parameters; a response's body is a text.
pub mod Orders
mod Tests
use order_flow.Prelude.{
  ℕ, ◌≡◌, Bool, true, false, ◌&&◌, Option, none, some, List, [], ◌∷◌, ◌++◌, String, str_eq, Time,
  if◌then◌else◌,
}
use order_flow.Strings.{has_prefix, trim_prefix}
use order_flow.Http.{
  Response, set_header, write_header, write, http_error, status_created, status_bad_request,
  status_not_found, status_internal_server_error,
}
use order_flow.Model.{Order}
use order_flow.Errors.{GoError}
use order_flow.Cache.{OrderCache, get, set, size}

-- What the server reads of a request. `body` is what the decoder makes of it, `none` for no JSON.
pub record ApiRequest : Type 0 where
  pub path : String
  pub method : String
  pub body : Option Order

-- `GetOrderByUID`: the order, or nil, with the error.
pub record Fetched : Type 0 where
  pub order : Option Order
  pub error : Option GoError

-- What the server calls outside of the modelled code. An encoding is `none` where the encoder fails
-- before it writes.
pub record ApiServices : Type 0 where
  pub get_order_by_uid : Option (String → Fetched)
  pub encode_order : Order → Option String
  pub encode_created : String → Option String
  pub encode_health : ℕ → Option String
  pub serve_static : ApiRequest → Response

module _ (services : ApiServices) where
  open services use {get_order_by_uid, encode_order, encode_created, encode_health, serve_static}

  -- `json.NewEncoder(w).Encode(v)`, and the answer to its error
  encoded : Option String → Response
  encoded (some text) = write text ∷ []
  encoded none = http_error "Failed to encode response" status_internal_server_error

  -- `handleHealth`
  unfoldable pub handle_health : OrderCache → Response
  unfolding encoded
  handle_health c = set_header "Content-Type" "application/json" ∷ encoded (encode_health (size c))

  create_order : Time → Option Order → OrderCache → OrderCache × Response
  unfolding encoded
  create_order now none c = (c, http_error "Invalid JSON" status_bad_request)
  create_order now (some o) c = (
    set now (some o) c,
    set_header "Content-Type" "application/json"
        ∷ write_header status_created
        ∷ encoded (encode_created o.order_uid),
  )

  -- `handleCreateOrder`
  unfoldable pub handle_create_order : Time → ApiRequest → OrderCache → OrderCache × Response
  unfolding create_order
  handle_create_order now r c = create_order now r.body c

  order_response : Order → Response
  unfolding encoded
  order_response o = set_header "Content-Type" "application/json" ∷ encoded (encode_order o)

  not_found : Response
  not_found = http_error "Order not found" status_not_found

  -- After the call of GetOrderByUID.
  -- `stored` is the clock reading of its Set.
  from_db : Time → OrderCache → Option Order → Option GoError → OrderCache × Response
  unfolding order_response not_found
  from_db stored c order (some e) = (c, not_found)
  from_db stored c none none = (c, not_found)
  from_db stored c (some o) none = (set stored (some o) c, order_response o)

  -- Where the cache has no order; the server may have no database.
  load_from_db : Option (String → Fetched) → Time → String → OrderCache → OrderCache × Response
  unfolding from_db not_found
  load_from_db none stored uid c = (c, not_found)
  load_from_db (some fetch) stored uid c = from_db stored c (fetch uid).order (fetch uid).error

  after_get : Time → String → OrderCache → Option Order → OrderCache × Response
  unfolding order_response load_from_db
  after_get stored uid c (some o) = (c, order_response o)
  after_get stored uid c none = load_from_db get_order_by_uid stored uid c

  -- The lookup of `handleGetOrder` for a UID that is not empty: `now` is the clock reading of Get, and
  -- `stored` the one of Set, after the repository has answered.
  unfoldable pub find_order : Time → Time → String → OrderCache → OrderCache × Response
  unfolding after_get
  find_order now stored uid c = let (c', found) = get now uid c in after_get stored uid c' found

  -- `handleGetOrder`
  unfoldable pub handle_get_order : Time → Time → ApiRequest → OrderCache → OrderCache × Response
  handle_get_order now stored r c =
      let uid = trim_prefix r.path "/order/" in
      if str_eq uid ""
      then (c, http_error "Order ID is required" status_bad_request)
      else find_order now stored uid c

  -- `ServeHTTP`: `now` is the first clock reading of the request's handler, and `stored` the second.
  unfoldable pub serve_http : Time → Time → ApiRequest → OrderCache → OrderCache × Response
  serve_http now stored r c =
      if str_eq r.path "/health"
      then (c, handle_health c)
      else (if str_eq r.path "/order" && str_eq r.method "POST"
          then handle_create_order now r c
          else (if has_prefix r.path "/order/"
              then handle_get_order now stored r c
              else (c, serve_static r)))
