-- ===== src/Cache/Cleanup.antt =====
-- What the periodic cleanup removes (internal/cache/cache.go), and that no reader can tell.
use order_flow.Prelude.{
  ◌≤◌, ◌≡◌, refl, ◌∙◌, sym, Bool, true, false, ◌||◌, Option, none, some, List, [], ◌∷◌, arith,
  if◌then◌else◌, Time, Duration, String, str_eq, eq_iff, Dict, lookup, DistinctKeys, lookup-remove,
  ap, sub_time,
}
use order_flow.Cache.{
  inc_expirations, expired, Entry, OrderCache, delete, get, cleanup, expired_keys, delete_expired,
}
use order_flow.Cache.Reads.{live, get-live}

-- `c` with the expired entries gone, seen by key.
abbrev pub survivor : Duration → Time → Option Entry → Option Entry
survivor ttl now none = none
survivor ttl now (some e) = if expired ttl now e then none else some e

contains : String → List String → Bool
contains k [] = false
contains k (j ∷ ks) = str_eq j k || contains k ks

lookup-delete_expired :
    (k : String) (ks : List String) (c : OrderCache)
    → lookup k (delete_expired ks c).orders ≡ (if contains k ks then none else lookup k c.orders)
unfolding delete_expired contains delete
lookup-delete_expired k [] c = refl
lookup-delete_expired k (j ∷ ks) c =
    ground
      (arith, lookup-delete_expired k ks (inc_expirations (delete j c)), lookup-remove j k c.orders)

contains_absent :
    (k : String) (ttl : Duration) (now : Time) (m : Dict Entry)
    → lookup k m ≡ none
    → contains k (expired_keys ttl now m) ≡ false
unfolding contains expired_keys lookup
contains_absent k ttl now [] h = refl
contains_absent k ttl now ((j, e) ∷ m) h = ground (arith, contains_absent k ttl now m)

contains-expired_keys :
    (k : String) (ttl : Duration) (now : Time) (m : Dict Entry)
    → DistinctKeys m
    → (if contains k (expired_keys ttl now m) then none else lookup k m)
      ≡ survivor ttl now (lookup k m)
unfolding contains expired_keys lookup
contains-expired_keys k ttl now [] d = refl
contains-expired_keys k ttl now ((j, e) ∷ m) (d, ds) =
    ground (arith, eq_iff j k, contains-expired_keys k ttl now m ds, contains_absent j ttl now m d)

-- After a cleanup of a valid cache a key is missing if it was missing or its entry had expired, and
-- has the entry that it had otherwise.
lookup-cleanup :
    (now : Time) (k : String) (c : OrderCache)
    → DistinctKeys c.orders
    → lookup k (cleanup now c).orders ≡ survivor c.ttl now (lookup k c.orders)
unfolding cleanup
lookup-cleanup now k c d =
    lookup-delete_expired k (expired_keys c.ttl now c.orders) c
    ∙ contains-expired_keys k c.ttl now c.orders d

expired_later :
    (ttl : Duration) (now later : Time) (e : Entry)
    → now ≤ later
    → expired ttl now e ≡ true
    → expired ttl later e ≡ true
unfolding expired sub_time
expired_later ttl now later e le h = ground arith

delete_expired-ttl : (ks : List String) (c : OrderCache) → (delete_expired ks c).ttl ≡ c.ttl
unfolding delete_expired
delete_expired-ttl [] c = refl
delete_expired-ttl (k ∷ ks) c = delete_expired-ttl ks _

live-survivor :
    (ttl : Duration) (now later : Time) (e : Option Entry)
    → now ≤ later
    → live ttl later (survivor ttl now e) ≡ live ttl later e
live-survivor ttl now later none le = refl
live-survivor ttl now later (some e) le = ground (arith, expired_later ttl now later e le)

-- A cleanup is invisible to the readers that come after it: `Get` at any later time returns for each
-- key what it would have returned without the cleanup.
pub get-cleanup :
    (now later : Time) (k : String) (c : OrderCache)
    → DistinctKeys c.orders
    → now ≤ later
    → (get later k (cleanup now c)).1 ≡ (get later k c).1
unfolding cleanup
get-cleanup now later k c d le =
    get-live later k (cleanup now c)
    ∙ rw (delete_expired-ttl (expired_keys c.ttl now c.orders) c) (
        ap (live c.ttl later) (lookup-cleanup now k c d)
        ∙ live-survivor c.ttl now later (lookup k c.orders) le)
    ∙ sym (get-live later k c)
