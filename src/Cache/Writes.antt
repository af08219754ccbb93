-- ===== src/Cache/Writes.antt =====
-- What `Set` and `LoadAll` store, and what they evict (internal/cache/cache.go).
use order_flow.Prelude.{
  ℕ, ◌+◌, ◌≤◌, ◌≡◌, ◌≢◌, refl, ◌∙◌, true, false, Option, none, some, List, [], ◌∷◌, inl, inr, pos,
  arith, if◌then◌else◌, Bool-cases, Time, String, str_eq, eq_iff, Dict, lookup, insert, Each,
  lookup-insert, lookup-remove, zero_time, ap, ltb, max_int, sub_time-lt, succ_int, ◌-◌,
}
use order_flow.Model.{Order}
use order_flow.Cache.{
  expired, Entry, OrderCache, delete, get, oldest, evict_oldest, is_full, new_entry, set, load_into,
  load_all,
}
use order_flow.Cache.Entries.{oldest_lem}
use order_flow.Cache.Invariant.{IsValid}
use order_flow.Cache.Reads.{get-live}

lookup-set_self :
    (now : Time) (o : Order) (c : OrderCache)
    → str_eq o.order_uid "" ≡ false
    → (lookup o.order_uid (set now (some o) c).orders ≡ some (new_entry now o))
      × ((set now (some o) c).ttl ≡ c.ttl)
unfolding set evict_oldest delete
lookup-set_self now o c ne =
    (rw ne (rw lookup-insert (ground (arith, eq_iff o.order_uid o.order_uid))), ground arith)

-- An order that is set is read back until it expires: with a time to live of `d` nanoseconds, `Get`
-- at `later` returns it unless `later` is past `now` by more than `d`. It does not matter whether the
-- cache was full.
pub get-set :
    (now later : Time) (o : Order) (c : OrderCache) (d : ℕ)
    → str_eq o.order_uid "" ≡ false
    → c.ttl ≡ pos d
    → d ≤ max_int - 1
    → (get later o.order_uid (set now (some o) c)).1
      ≡ (if ltb (now + d) later then none else some o)
unfolding expired
get-set now later o c d ne ttl fits =
    let (stored, same) = lookup-set_self now o c ne in
    rw get-live
      (rw (stored, same, ttl) (ap (λ b. if b then none else some o) (sub_time-lt later now d fits)))

-- Where the cache has room, the entries of the other keys stay as they are, and nothing is evicted.
lookup-set_room :
    (now : Time) (o : Order) (j : String) (c : OrderCache)
    → str_eq o.order_uid "" ≡ false
    → is_full c ≡ false
    → (lookup j (set now (some o) c).orders
        ≡ (if str_eq o.order_uid j then some (new_entry now o) else lookup j c.orders))
      × ((set now (some o) c).stats ≡ c.stats)
unfolding set
lookup-set_room now o j c ne free =
    ground (arith, lookup-insert o.order_uid j (new_entry now o) c.orders)

-- Where a valid cache is full, exactly one entry goes, and none is older by its creation time: of the
-- keys but the new one it alone is missing afterwards, and the evictions count it.
pub lookup-set_full :
    (b : ℕ) (now : Time) (o : Order) (c : OrderCache)
    → IsValid b c
    → str_eq o.order_uid "" ≡ false
    → is_full c ≡ true
    → c.orders ≢ []
    → (k : String) × (e : Entry) × (lookup k c.orders ≡ some e)
      × Each (λ j x. e.created_at ≤ x.created_at) c.orders
      × ((j : String)
          → lookup j (set now (some o) c).orders ≡ (
              if str_eq o.order_uid j
              then some (new_entry now o)
              else if str_eq k j
              then none
              else lookup j c.orders))
      × ((set now (some o) c).stats.evictions ≡ succ_int c.stats.evictions)
unfolding set evict_oldest delete
lookup-set_full b now o c v ne full some_entry =
    let (all, end) = oldest_lem c.orders some_entry v.filed v.distinct in
    let (e, found, time, nonempty) = end in
    let k = (oldest ("", zero_time) c.orders).0 in
    (
      k,
      e,
      found,
      rw time all,
      (λ j.
          rw (ne, full, nonempty) (rw lookup-insert (ground (arith, lookup-remove k j c.orders)))),
      rw (ne, full, nonempty),
    )

-- The last order of the list with the UID `k`, which is not empty.
unfoldable pub last_with : String → List (Option Order) → Option Order
last_with k [] = none
last_with k (none ∷ os) = last_with k os
last_with k (some o ∷ os) =
    let rest = last_with k os in
    elim rest [ some x ↦ some x | none ↦ if str_eq o.order_uid k then some o else none ]

abbrev pub entry_or : Time → Option Order → Option Entry → Option Entry
entry_or now none e = e
entry_or now (some o) e = some (new_entry now o)

lookup-load_into :
    (now : Time) (k : String) (os : List (Option Order)) (m : Dict Entry)
    → str_eq k "" ≡ false
    → lookup k (load_into now os m) ≡ entry_or now (last_with k os) (lookup k m)
unfolding load_into last_with
lookup-load_into now k [] m ne = refl
lookup-load_into now k (none ∷ os) m ne = lookup-load_into now k os m ne
lookup-load_into now k (some o ∷ os) m ne = elim (Bool-cases (str_eq o.order_uid "")) [
  | inl empty ↦ rw empty (
      ground (
        arith,
        eq_iff o.order_uid "",
        eq_iff o.order_uid k,
        eq_iff k "",
        eq_iff "" k,
        lookup-load_into now k os m ne,
      ))
  | inr filled ↦ rw filled (
      ground (
        arith,
        lookup-load_into now k os (insert o.order_uid (new_entry now o) m) ne,
        lookup-insert o.order_uid k (new_entry now o) m,
      ))
]

lookup_empty : (k : String) → lookup {V = Entry} k [] ≡ none
unfolding lookup
lookup_empty k = refl

-- After `LoadAll` the cache has, for each key that is not empty, a new entry with the last order of
-- the list that has this UID, and nothing of what it had before. The configured size plays no part.
pub lookup-load_all :
    (now : Time) (k : String) (os : List (Option Order)) (c : OrderCache)
    → str_eq k "" ≡ false
    → lookup k (load_all now os c).orders ≡ entry_or now (last_with k os) none
unfolding load_all
lookup-load_all now k os c ne =
    lookup-load_into now k os [] ne ∙ ap (entry_or now (last_with k os)) (lookup_empty k)
