-- ===== src/Cache.antt =====
-- The order cache of internal/cache/cache.go. A method returns the new cache beside its result.
-- Times and clock readings are arguments. The list of entries stands in the order in which a
-- `range` over the Go map meets them; Go leaves that order open, so the sequences of operations of
-- `Cache.Invariant` reorder it at will.
pub mod Entries
pub mod Invariant
pub mod Reads
pub mod Writes
pub mod Cleanup
pub mod Race
pub mod Summary
mod Tests
use order_flow.Prelude.{
  ℕ, ◌≡◌, Bool, true, false, ◌&&◌, ◌||◌, not, Option, none, some, List, [], ◌∷◌, ◌++◌, map, ℤ, pos,
  leb_ℤ, ltb_ℤ, succ_int, if◌then◌else◌, Time, Duration, zero_time, sub_time, before, minute,
  String, str_eq, Dict, lookup, insert, remove, length,
}
use order_flow.Model.{Order}

-- `cacheEntry`; its lock is not represented.
pub record Entry : Type 0 where
  pub order : Order
  pub created_at : Time
  pub last_access : Time

-- The counters of `stats`, 64-bit.
pub record Counters : Type 0 where
  pub hits : ℤ
  pub misses : ℤ
  pub evictions : ℤ
  pub expirations : ℤ

-- `stopped` is whether `stopCleanup` is closed.
pub record OrderCache : Type 0 where
  pub orders : Dict Entry
  pub max_size : ℤ
  pub ttl : Duration
  pub cleanup_interval : Duration
  pub stopped : Bool
  pub stats : Counters

unfoldable pub new_order_cache : ℤ → Duration → OrderCache
new_order_cache max_size ttl = record {
  orders = [];
  max_size = max_size;
  ttl = ttl;
  cleanup_interval = pos 300000000000;
  stopped = false;
  stats = record { hits = pos 0; misses = pos 0; evictions = pos 0; expirations = pos 0 };
}

abbrev inc_hits : OrderCache → OrderCache
inc_hits c = record c { stats = record (c.stats) { hits = succ_int c.stats.hits } }

abbrev inc_misses : OrderCache → OrderCache
inc_misses c = record c { stats = record (c.stats) { misses = succ_int c.stats.misses } }

abbrev inc_evictions : OrderCache → OrderCache
inc_evictions c = record c { stats = record (c.stats) { evictions = succ_int c.stats.evictions } }

abbrev pub inc_expirations : OrderCache → OrderCache
inc_expirations c = record c {
  stats = record (c.stats) { expirations = succ_int c.stats.expirations };
}

-- `time.Since(entry.createdAt) > c.ttl`
unfoldable pub expired : Duration → Time → Entry → Bool
expired ttl now e = ltb_ℤ ttl (sub_time now e.created_at)

unfoldable pub delete : String → OrderCache → OrderCache
delete k c = record c { orders = remove k c.orders }

-- What the first part of `Get`, under the read locks, finds.
pub data Found : Type 0 where
  missing : Found
  stale : Found
  fresh : Order → Found

find_entry : Duration → Time → Option Entry → Found
find_entry ttl now none = missing
find_entry ttl now (some e) = if expired ttl now e then stale else fresh e.order

-- The entry's `lastAccess` is set through its pointer.
touch_entry : Time → Found → Option Entry → String → Dict Entry → Dict Entry
touch_entry now (fresh o) (some e) k m = insert k (record e { last_access = now }) m
touch_entry now found e k m = m

-- The first part of `Get`. One clock reading stands for its two, of which the second is only stored in
-- `lastAccess`, which nothing reads.
unfoldable pub begin_get : Time → String → OrderCache → OrderCache × Found
unfolding find_entry touch_entry
begin_get now k c =
    let e = lookup k c.orders in
    let found = find_entry c.ttl now e in
    (record c { orders = touch_entry now found e k c.orders }, found)

-- The second part of `Get`, each step of which takes its own lock.
unfoldable pub finish_get : Found → String → OrderCache → OrderCache × Option Order
unfolding delete
finish_get missing k c = (inc_misses c, none)
finish_get stale k c = (inc_misses (inc_expirations (delete k c)), none)
finish_get (fresh o) k c = (inc_hits c, some o)

unfoldable pub get : Time → String → OrderCache → OrderCache × Option Order
unfolding begin_get finish_get
get now k c = let (c', found) = begin_get now k c in finish_get found k c'

-- The loop of `evictOldest`: the oldest key so far, "" at first, and its time.
pub older : String × Time → String → Entry → String × Time
older (k, t) j e = if str_eq k "" || before e.created_at t then (j, e.created_at) else (k, t)

unfoldable pub oldest : String × Time → Dict Entry → String × Time
oldest acc [] = acc
oldest acc ((j, e) ∷ m) = oldest (older acc j e) m

unfoldable pub evict_oldest : OrderCache → OrderCache
evict_oldest c =
    let k = (oldest ("", zero_time) c.orders).0 in
    if str_eq k "" then c else inc_evictions (delete k c)

abbrev pub is_full : OrderCache → Bool
is_full c = leb_ℤ c.max_size (pos (length c.orders))

abbrev pub new_entry : Time → Order → Entry
new_entry now o = record { order = o; created_at = now; last_access = now }

-- `none` is a nil order.
unfoldable pub set : Time → Option Order → OrderCache → OrderCache
set now none c = c
set now (some o) c =
    if str_eq o.order_uid ""
    then c
    else let c' = (if is_full c then evict_oldest c else c) in
      record c' { orders = insert o.order_uid (new_entry now o) c'.orders }

load_order : Time → Option Order → Dict Entry → Dict Entry
load_order now none m = m
load_order now (some o) m =
    if str_eq o.order_uid "" then m else insert o.order_uid (new_entry now o) m

unfoldable pub load_into : Time → List (Option Order) → Dict Entry → Dict Entry
unfolding load_order
load_into now [] m = m
load_into now (o ∷ os) m = load_into now os (load_order now o m)

unfoldable pub load_all : Time → List (Option Order) → OrderCache → OrderCache
unfolding load_into
load_all now os c = record c { orders = load_into now os [] }

unfoldable pub size : OrderCache → ℕ
size c = length c.orders

unfoldable pub clear : OrderCache → OrderCache
clear c = record c { orders = [] }

-- The two loops of `cleanup`.
unfoldable pub expired_keys : Duration → Time → Dict Entry → List String
expired_keys ttl now [] = []
expired_keys ttl now ((k, e) ∷ m) =
    let rest = expired_keys ttl now m in if expired ttl now e then k ∷ rest else rest

unfoldable pub delete_expired : List String → OrderCache → OrderCache
unfolding delete
delete_expired [] c = c
delete_expired (k ∷ ks) c = delete_expired ks (inc_expirations (delete k c))

unfoldable pub cleanup : Time → OrderCache → OrderCache
cleanup now c = delete_expired (expired_keys c.ttl now c.orders) c

-- `Stop`; `none` is the panic of closing a closed channel.
unfoldable pub stop : OrderCache → Option OrderCache
stop c = if c.stopped then none else some (record c { stopped = true })
