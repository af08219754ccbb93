-- ===== src/Service/Start.antt =====
-- What the service serves after its start (cmd/service/initializer.go).
use order_flow.Prelude.{
  Option-cases, if◌then◌else◌, ◌≡◌, ap, ◌∙◌, arith, ◌⊎◌, inl, inr, false, ℕ, ◌+◌, ◌*◌, ◌≤◌, ltb,
  minute, pos, Option, none, some, List, [], ◌∷◌, map, String, str_eq, Time, sub_time-lt, lookup,
}
use order_flow.Model.{Order}
use order_flow.Errors.{GoError, Message}
use order_flow.Config.{Config}
use order_flow.Http.{set_header, write}
use order_flow.Cache.{new_order_cache, new_entry, expired, get, load_all}
use order_flow.Cache.Reads.{get-live}
use order_flow.Cache.Writes.{last_with, entry_or, lookup-load_all}
use order_flow.Api.{ApiServices, serve_http}
use order_flow.Api.Orders.{get_request, serve_http-get, find_order-found}
use order_flow.Config.Load.{database_url}
use order_flow.Service.{minutes, init_cache, App, new_app}

-- Up to 153722867 minutes, some 292 years, the product does not wrap.
pub minutes-eq : (n : ℕ) → n ≤ 153722867 → minutes (pos n) ≡ pos (n * minute)
unfolding minutes
minutes-eq n h = ground arith

module _ {F : Type 0} where
  new_app-cache :
      (connect : Message → Option GoError) (cfg : Config F) (loaded : GoError ⊎ List Order)
      (app : App F) (now : Time)
      → new_app connect cfg loaded now ≡ inr app
      → app.cache ≡ init_cache cfg loaded now
  unfolding new_app
  new_app-cache connect cfg loaded app now made =
      elim (Option-cases (connect (database_url cfg.database))) [
        | inl h ↦ ground arith
        | inr (e, h) ↦ ground arith
      ]

  get-init_cache :
      (cfg : Config F) (os : List Order) (uid : String) (o : Order) (now later n : ℕ)
      → str_eq uid "" ≡ false
      → cfg.cache.ttl_minutes ≡ pos n
      → n ≤ 153722867
      → last_with uid (map some os) ≡ some o
      → ltb (now + n * minute) later ≡ false
      → (get later uid (init_cache cfg (inr os) now)).1 ≡ some o
  unfolding init_cache expired load_all new_order_cache
  get-init_cache cfg os uid o now later n ne ttl fits found fresh =
      let c = init_cache cfg (inr os) now in
      let at =
        lookup-load_all now uid (map some os)
          (new_order_cache cfg.cache.max_size (minutes cfg.cache.ttl_minutes)) ne in
      let stored : lookup uid c.orders ≡ some (new_entry now o) =
        at ∙ ap (λ x. entry_or now x none) found in
      let time : c.ttl ≡ pos (n * minute) = ap minutes ttl ∙ minutes-eq n fits in
      get-live later uid c
      ∙ rw (stored, time)
          (ap (λ b. if b then none else some o)
            (sub_time-lt later now (n * minute) (omega (arith, fits)) ∙ fresh))

  -- Where NewApp succeeds and LoadAllOrders returned orders, the HTTP API answers the request for
  -- each UID among them that is not empty with the JSON of the last order of that UID, if it has
  -- one, until the configured minutes have passed, for a time to live of up to 153722867 minutes.
  -- The size of the cache plays no part.
  pub new_app-serves :
      (connect : Message → Option GoError) (cfg : Config F) (os : List Order) (app : App F)
      (services : ApiServices) (uid text : String) (o : Order) (now later stored n : ℕ)
      → new_app connect cfg (inr os) now ≡ inr app
      → str_eq uid "" ≡ false
      → cfg.cache.ttl_minutes ≡ pos n
      → n ≤ 153722867
      → last_with uid (map some os) ≡ some o
      → ltb (now + n * minute) later ≡ false
      → services.encode_order o ≡ some text
      → (serve_http services later stored (get_request uid) app.cache).1
        ≡ set_header "Content-Type" "application/json" ∷ write text ∷ []
  new_app-serves connect cfg os app services uid text o now later stored n made ne ttl fits found
        fresh e =
      let kept =
        ap (λ c. (get later uid c).1) (new_app-cache connect cfg (inr os) app now made)
        ∙ get-init_cache cfg os uid o now later n ne ttl fits found fresh in
      ap (λ r. r.1) (serve_http-get services later stored uid app.cache ne)
      ∙ find_order-found services later stored uid text app.cache o kept e
