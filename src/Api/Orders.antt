-- ===== src/Api/Orders.antt =====
-- Orders that are created and read over HTTP (internal/http/api.go).
use order_flow.Prelude.{
  ℕ, ◌+◌, ◌-◌, ◌≤◌, ◌≡◌, refl, sym, ap, ◌∙◌, true, false, none, some, [], ◌∷◌, String, str_eq, Time,
  pos, if◌then◌else◌, ltb, max_int, arith, eq_iff, Bool-cases, inl, inr,
}
use order_flow.Strings.{has_prefix, trim_prefix, strip_prefix, append_str, get_or, is_some}
use order_flow.Http.{set_header, write}
use order_flow.Model.{Order}
use order_flow.Cache.{OrderCache, get, set}
use order_flow.Cache.Reads.{live}
use order_flow.Cache.Writes.{get-set}
use order_flow.Api.{
  ApiRequest, Fetched, ApiServices, handle_get_order, handle_create_order, find_order, serve_http,
}

-- The request for an order.
abbrev pub get_request : String → ApiRequest
get_request uid = record { path = append_str "/order/" uid; method = "GET"; body = none }

abbrev pub post_request : Order → ApiRequest
post_request o = record { path = "/order"; method = "POST"; body = some o }

strip-append : (p s : String) → strip_prefix p (append_str p s) ≡ some s
unfolding strip_prefix append_str
strip-append String.[] s = refl
strip-append (String.◌∷◌ c p) s = ground (arith, strip-append p s)

trim-append : (s : String) → trim_prefix (append_str "/order/" s) "/order/" ≡ s
unfolding trim_prefix
trim-append s = ap (λ o. get_or o (append_str "/order/" s)) (strip-append "/order/" s)

has-append : (s : String) → has_prefix (append_str "/order/" s) "/order/" ≡ true
unfolding has_prefix
has-append s = ap is_some (strip-append "/order/" s)

-- A path of an order is none that has not its prefix.
other_path :
    (s t : String) → strip_prefix "/order/" t ≡ none → str_eq (append_str "/order/" s) t ≡ false
other_path s t h = elim (Bool-cases (str_eq (append_str "/order/" s) t)) [
  | inl e ↦
      let bad =
        sym (strip-append "/order/" s)
        ∙ ap (strip_prefix "/order/") ((eq_iff (append_str "/order/" s) t).0 e)
        ∙ h in
      ground arith
  | inr e ↦ e
]

no_route :
    (s : String)
    → (str_eq (append_str "/order/" s) "/health" ≡ false)
      × (str_eq (append_str "/order/" s) "/order" ≡ false)
unfolding strip_prefix
no_route s = (other_path s "/health" refl, other_path s "/order" refl)

module _ (services : ApiServices) where
  open services use {get_order_by_uid, encode_order, encode_created}

  -- A request for an order reaches the lookup of its UID.
  pub serve_http-get :
      (now stored : Time) (uid : String) (c : OrderCache)
      → str_eq uid "" ≡ false
      → serve_http services now stored (get_request uid) c ≡ find_order services now stored uid c
  unfolding serve_http handle_get_order
  serve_http-get now stored uid c ne =
      let (health, order) = no_route uid in
      rw (health, order, has-append uid, trim-append uid, ne) refl

  pub find_order-found :
      (now stored : Time) (uid text : String) (c : OrderCache) (o : Order)
      → (get now uid c).1 ≡ some o
      → encode_order o ≡ some text
      → (find_order services now stored uid c).1
        ≡ set_header "Content-Type" "application/json" ∷ write text ∷ []
  unfolding find_order
  find_order-found now stored uid text c o h e = ground arith

  find_order-fetched :
      (now stored : Time) (uid text : String) (c : OrderCache) (o : Order)
      (fetch : String → Fetched)
      → (get now uid c).1 ≡ none
      → get_order_by_uid ≡ some fetch
      → fetch uid ≡ record { order = some o; error = none }
      → encode_order o ≡ some text
      → find_order services now stored uid c ≡ (
        set stored (some o) (get now uid c).0,
        set_header "Content-Type" "application/json" ∷ write text ∷ [],
      )
  unfolding find_order
  find_order-fetched now stored uid text c o fetch h db f e = rw (h, db, f, e) refl

  serve_http-post :
      (now stored : Time) (o : Order) (c : OrderCache)
      → (serve_http services now stored (post_request o) c).0 ≡ set now (some o) c
  unfolding serve_http handle_create_order
  serve_http-post now stored o c = refl

  -- After an order with a UID was posted, a request for its UID is answered with its JSON, until the time
  -- to live of the cache has passed, whatever the cache held and whatever the repository has. The time
  -- to live is not negative and below 2^63 - 1 nanoseconds, and the order's encoding succeeds.
  pub serve_http-posted :
      (now stored later later_stored d : ℕ) (o : Order) (text : String) (c : OrderCache)
      → str_eq o.order_uid "" ≡ false
      → c.ttl ≡ pos d
      → d ≤ max_int - 1
      → ltb (now + d) later ≡ false
      → encode_order o ≡ some text
      → (serve_http services later later_stored
          (get_request o.order_uid)
          (serve_http services now stored (post_request o) c).0).1
        ≡ set_header "Content-Type" "application/json" ∷ write text ∷ []
  serve_http-posted now stored later later_stored d o text c ne ttl fits live e =
      let c' = (serve_http services now stored (post_request o) c).0 in
      let kept =
        ap (λ x. (get later o.order_uid x).1) (serve_http-post now stored o c)
        ∙ get-set now later o c d ne ttl fits
        ∙ ap (λ b. if b then none else some o) live in
      ap (λ r. r.1) (serve_http-get later later_stored o.order_uid c' ne)
      ∙ find_order-found later later_stored o.order_uid text c' o kept e

  ttl-get : (now : Time) (uid : String) (c : OrderCache) → (get now uid c).0.ttl ≡ c.ttl
  unfolding get
  ttl-get now uid c = ground arith

  -- A request for an order with a UID that the cache does not have and the repository has is answered with its JSON,
  -- and after it the cache answers with that order until its time to live has passed since the clock
  -- reading that follows the repository's answer, and not after that. The time to live is not
  -- negative and below 2^63 - 1 nanoseconds, and the order's encoding succeeds.
  pub serve_http-fetched :
      (now stored d : ℕ) (o : Order) (text : String) (c : OrderCache) (fetch : String → Fetched)
      → str_eq o.order_uid "" ≡ false
      → c.ttl ≡ pos d
      → d ≤ max_int - 1
      → (get now o.order_uid c).1 ≡ none
      → get_order_by_uid ≡ some fetch
      → fetch o.order_uid ≡ record { order = some o; error = none }
      → encode_order o ≡ some text
      → ((serve_http services now stored (get_request o.order_uid) c).1
          ≡ set_header "Content-Type" "application/json" ∷ write text ∷ [])
        × ((later : Time)
            → (get later o.order_uid
                (serve_http services now stored (get_request o.order_uid) c).0).1
              ≡ (if ltb (stored + d) later then none else some o))
  serve_http-fetched now stored d o text c fetch ne ttl fits missed db f e =
      let at =
        serve_http-get now stored o.order_uid c ne
        ∙ find_order-fetched now stored o.order_uid text c o fetch missed db f e in
      (
        ap (λ r. r.1) at,
        λ later.
            ap (λ r. (get later o.order_uid r.0).1) at
            ∙ get-set stored later o (get now o.order_uid c).0 d ne
                (ttl-get now o.order_uid c ∙ ttl) fits,
      )
