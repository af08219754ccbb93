-- ===== src/Cache/Race.antt =====
-- `Get` of internal/cache/cache.go lets its locks go between finding an expired entry and deleting
-- the key: what another caller stores in between.
use order_flow.Prelude.{
  ◌≡◌, false, none, some, arith, Time, String, str_eq, eq_iff, lookup, lookup-remove,
}
use order_flow.Model.{Order}
use order_flow.Cache.{OrderCache, stale, delete, begin_get, finish_get, get, set}
use order_flow.Cache.Reads.{get-live}

deleted : (k : String) (d : OrderCache) → lookup k (finish_get stale k d).0.orders ≡ none
unfolding finish_get delete
deleted k d = rw lookup-remove (ground (arith, eq_iff k k))

missing_none :
    (t : Time) (k : String) (d : OrderCache) → lookup k d.orders ≡ none → (get t k d).1 ≡ none
missing_none t k d h = rw get-live (rw h)

-- If a caller of `Get` finds the entry of a key expired, and an order of that key is set before the
-- caller deletes the key, the new order is lost: after the second part of `Get` the key is missing,
-- whenever and over whatever cache this happens.
pub finish_get-set :
    (now begun later : Time) (o : Order) (c : OrderCache)
    → str_eq o.order_uid "" ≡ false
    → (begin_get begun o.order_uid c).1 ≡ stale
    → let found = begin_get begun o.order_uid c in
      let lost = (finish_get found.1 o.order_uid (set now (some o) found.0)).0 in
      (lookup o.order_uid lost.orders ≡ none) × ((get later o.order_uid lost).1 ≡ none)
finish_get-set now begun later o c ne h =
    let d = (set now (some o) (begin_get begun o.order_uid c).0) in
    let gone = deleted o.order_uid d in
    rw h (gone, missing_none later o.order_uid (finish_get stale o.order_uid d).0 gone)
