-- ===== src/Cache/Reads.antt =====
-- What `Get` returns and counts (internal/cache/cache.go).
use order_flow.Prelude.{
  ℕ, suc, ◌+◌, ◌≤◌, ◌≡◌, ◌∙◌, Option, none, some, List, [], ◌∷◌, pos, arith, if◌then◌else◌, Time,
  Duration, String, lookup, length, ap, max_int,
}
use order_flow.Model.{Order}
use order_flow.Cache.{expired, Entry, OrderCache, get}

-- The order that a reader may see: the one of an entry that has not expired.
abbrev pub live : Duration → Time → Option Entry → Option Order
live ttl now none = none
live ttl now (some e) = if expired ttl now e then none else some e.order

pub get-live :
    (now : Time) (k : String) (c : OrderCache)
    → (get now k c).1 ≡ live c.ttl now (lookup k c.orders)
unfolding get
get-live now k c = ground arith

-- The results of a list of calls of `Get`, and the cache after them.
unfoldable pub gets : List (Time × String) → OrderCache → OrderCache × List (Option Order)
gets [] c = (c, [])
gets ((now, k) ∷ calls) c =
    let (c', r) = get now k c in let (c'', rs) = gets calls c' in (c'', r ∷ rs)

abbrev pub count_found : List (Option Order) → ℕ
count_found [] = 0
count_found (none ∷ rs) = count_found rs
count_found (some o ∷ rs) = suc (count_found rs)

abbrev pub count_missed : List (Option Order) → ℕ
count_missed [] = 0
count_missed (none ∷ rs) = suc (count_missed rs)
count_missed (some o ∷ rs) = count_missed rs

count_one : (r : Option Order) → (count_found (r ∷ []) ≤ 1) × (count_missed (r ∷ []) ≤ 1)
count_one none = omega arith
count_one (some o) = omega arith

count_cons :
    (r : Option Order) (rs : List (Option Order))
    → (count_found (r ∷ rs) ≡ count_found (r ∷ []) + count_found rs)
      × (count_missed (r ∷ rs) ≡ count_missed (r ∷ []) + count_missed rs)
count_cons none rs = omega arith
count_cons (some o) rs = omega arith

get-stats :
    (now : Time) (k : String) (c : OrderCache) (h m : ℕ)
    → c.stats.hits ≡ pos h
    → c.stats.misses ≡ pos m
    → suc h ≤ max_int
    → suc m ≤ max_int
    → let r = get now k c in
      (r.0.stats.hits ≡ pos (h + count_found (r.1 ∷ [])))
      × (r.0.stats.misses ≡ pos (m + count_missed (r.1 ∷ [])))
unfolding get
get-stats now k c h m eh em lh lm = ground arith

-- Over any calls of `Get`, as long as the 64-bit counters cannot overflow, the hits grow by the
-- number of calls that returned an order and the misses by the number of those that returned none.
gets-stats :
    (calls : List (Time × String)) (c : OrderCache) (h m : ℕ)
    → c.stats.hits ≡ pos h
    → c.stats.misses ≡ pos m
    → h + length calls ≤ max_int
    → m + length calls ≤ max_int
    → let (c', rs) = gets calls c in
      (c'.stats.hits ≡ pos (h + count_found rs)) × (c'.stats.misses ≡ pos (m + count_missed rs))
unfolding gets
gets-stats [] c h m eh em lh lm = ground arith
gets-stats ((now, k) ∷ calls) c h m eh em lh lm =
    let r = get now k c in
    let (eh', em') = get-stats now k c h m eh em (omega arith) (omega arith) in
    let (a, b) =
      gets-stats calls r.0 (h + count_found (r.1 ∷ [])) (m + count_missed (r.1 ∷ [])) eh' em'
        (omega (arith, count_one r.1)) (omega (arith, count_one r.1)) in
    (
      a ∙ ap pos (omega (arith, count_cons r.1 (gets calls r.0).1)),
      b ∙ ap pos (omega (arith, count_cons r.1 (gets calls r.0).1)),
    )
