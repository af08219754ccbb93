-- ===== src/Cache/Invariant.antt =====
-- What holds of the cache (internal/cache/cache.go) between any two of its critical sections.
use order_flow.Prelude.{
  ℕ, suc, ◌+◌, ◌≤◌, ◌≡◌, ◌≢◌, refl, ◌∙◌, sym, false, Option, none, some, List, [], ◌∷◌, inl, inr,
  pos, ◌≤ℤ◌, arith, if◌then◌else◌, Bool-cases, Time, Duration, String, str_eq, Dict, lookup, insert,
  remove, length, DistinctKeys, Each, Each-insert, Each-remove, Each-perm, Each-lookup,
  length-remove, length-insert-le, length-remove-le, insert-DistinctKeys, remove-DistinctKeys,
  perm-DistinctKeys, length-perm, zero_time, ap, length-insert_present,
}
use mathlib.Core.List.{Permᴰ}
use order_flow.Model.{Order}
use order_flow.Cache.{
  expired, find_entry, touch_entry, Entry, OrderCache, Found, missing, stale, fresh, delete,
  begin_get, finish_get, oldest, evict_oldest, is_full, new_entry, set, load_into, load_all, clear,
  cleanup, expired_keys, delete_expired,
}
use order_flow.Cache.Entries.{IsFiled, oldest_lem}

-- `b` is at least 1, the configured size, and the length of every list that is loaded.
pub record IsValid (b : ℕ) (c : OrderCache) : Type 0 where
  pub distinct : DistinctKeys c.orders
  pub filed : Each IsFiled c.orders
  pub bounded : length c.orders ≤ b
  pub room : c.max_size ≤ℤ pos b
  pub positive : 1 ≤ b

-- The critical sections of the methods, by any callers in any order; `Get` is two of them, its second
-- with whatever its first found. A range over the map may meet the entries in any order.
pub data Step (b : ℕ) (c : OrderCache) : OrderCache → Type 0 where
  begin_get_step : (now : Time) (k : String) → Step b c (begin_get now k c).0
  finish_get_step : (found : Found) (k : String) → Step b c (finish_get found k c).0
  set_step : (now : Time) (o : Option Order) → Step b c (set now o c)
  load_all_step :
      (now : Time) (os : List (Option Order)) → length os ≤ b → Step b c (load_all now os c)
  delete_step : (k : String) → Step b c (delete k c)
  clear_step : Step b c (clear c)
  cleanup_step : (now : Time) → Step b c (cleanup now c)
  reorder_step : (m : Dict Entry) → Permᴰ c.orders m → Step b c (record c { orders = m })

pub data Reach (b : ℕ) (c : OrderCache) : OrderCache → Type 0 where
  here : Reach b c c
  next : {d e : OrderCache} → Reach b c d → Step b d e → Reach b c e

-- Valid contents for a bound, apart from the settings.
abbrev IsGood : ℕ → Dict Entry → Type 0
IsGood b m = DistinctKeys m × Each IsFiled m × (length m ≤ b)

with_orders :
    {b : ℕ} {c d : OrderCache}
    → IsValid b c
    → IsGood b d.orders
    → d.max_size ≡ c.max_size
    → IsValid b d
with_orders v (ds, fs, le) same = record {
  distinct = ds;
  filed = fs;
  bounded = le;
  room = ground arith;
  positive = v.positive;
}

module _ (b : ℕ) where
  remove-IsGood : (k : String) (m : Dict Entry) → IsGood b m → IsGood b (remove k m)
  remove-IsGood k m (ds, fs, le) =
      (remove-DistinctKeys k m ds, Each-remove IsFiled k m fs, omega (arith, length-remove-le k m))

  insert-IsGood :
      (now : Time) (o : Order) (m : Dict Entry)
      → str_eq o.order_uid "" ≡ false
      → DistinctKeys m
      → Each IsFiled m
      → suc (length m) ≤ b
      → IsGood b (insert o.order_uid (new_entry now o) m)
  insert-IsGood now o m ne ds fs le = (
    insert-DistinctKeys o.order_uid (new_entry now o) m ds,
    Each-insert IsFiled o.order_uid (new_entry now o) m (record { nonempty = ne; keyed = refl }) fs,
    omega (arith, length-insert-le o.order_uid (new_entry now o) m),
  )

-- An eviction from a cache that is not empty deletes one entry.
evict-length :
    (c : OrderCache)
    → DistinctKeys c.orders
    → Each IsFiled c.orders
    → c.orders ≢ []
    → suc (length (evict_oldest c).orders) ≡ length c.orders
unfolding evict_oldest delete
evict-length c ds fs ne =
    let (all, end) = oldest_lem c.orders ne fs ds in
    let (e, found, time, nonempty) = end in
    rw nonempty
      (omega (arith, length-remove (oldest ("", zero_time) c.orders).0 c.orders e ds found))

evict-keeps :
    (b : ℕ) (c : OrderCache)
    → IsGood b c.orders
    → IsGood b (evict_oldest c).orders × ((evict_oldest c).max_size ≡ c.max_size)
unfolding evict_oldest delete
evict-keeps b c g = elim (Bool-cases (str_eq (oldest ("", zero_time) c.orders).0 "")) [
  | inl e ↦ rw e (g, refl)
  | inr e ↦ rw e (remove-IsGood b (oldest ("", zero_time) c.orders).0 c.orders g, refl)
]

-- The room that `Set` makes before it inserts.
make_room : OrderCache → OrderCache
make_room c = if is_full c then evict_oldest c else c

evict_room :
    (b : ℕ) (c : OrderCache) (m : Dict Entry)
    → c.orders ≡ m
    → IsValid b c
    → suc (length (evict_oldest c).orders) ≤ b
evict_room b c [] e v =
    let (good, same) = evict-keeps (length c.orders) c (v.distinct, v.filed, omega arith) in
    omega (arith, good.2, ap length e, v.positive)
evict_room b c (x ∷ m) e v =
    omega (arith, evict-length c v.distinct v.filed (λ e'. cc (sym e ∙ e')), v.bounded)

make_room-IsGood :
    (b : ℕ) (c : OrderCache)
    → IsValid b c
    → IsGood b (make_room c).orders
      × ((make_room c).max_size ≡ c.max_size)
      × (suc (length (make_room c).orders) ≤ b)
unfolding make_room
make_room-IsGood b c v = elim (Bool-cases (is_full c)) [
  | inl full ↦
      let (good, same) = evict-keeps b c (v.distinct, v.filed, v.bounded) in
      rw full (good, same, evict_room b c c.orders refl v)
  | inr free ↦ rw free ((v.distinct, v.filed, v.bounded), refl, ground arith)
]

set-IsValid :
    (b : ℕ) (now : Time) (o : Option Order) (c : OrderCache) → IsValid b c → IsValid b (set now o c)
unfolding set make_room
set-IsValid b now none c v = v
set-IsValid b now (some o) c v = elim (Bool-cases (str_eq o.order_uid "")) [
  | inl e ↦ rw e v
  | inr e ↦
      let (good, same, fits) = make_room-IsGood b c v in
      rw e (with_orders v (insert-IsGood b now o (make_room c).orders e good.0 good.1 fits) same)
]

load_into-IsGood :
    (b : ℕ) (now : Time) (os : List (Option Order)) (m : Dict Entry)
    → DistinctKeys m
    → Each IsFiled m
    → length m + length os ≤ b
    → IsGood b (load_into now os m)
unfolding load_into
load_into-IsGood b now [] m ds fs le = (ds, fs, omega arith)
load_into-IsGood b now (none ∷ os) m ds fs le = load_into-IsGood b now os m ds fs (omega arith)
load_into-IsGood b now (some o ∷ os) m ds fs le = elim (Bool-cases (str_eq o.order_uid "")) [
  | inl e ↦ rw e (load_into-IsGood b now os m ds fs (omega arith))
  | inr e ↦
      let (ds', fs', le') = insert-IsGood (suc (length m)) now o m e ds fs (omega arith) in
      rw e
        (load_into-IsGood b now os (insert o.order_uid (new_entry now o) m) ds' fs' (omega arith))
]

delete_expired-IsValid :
    (b : ℕ) (ks : List String) (c : OrderCache) → IsValid b c → IsValid b (delete_expired ks c)
unfolding delete_expired
delete_expired-IsValid b [] c v = v
delete_expired-IsValid b (k ∷ ks) c v =
    delete_expired-IsValid b ks _
      (with_orders v (remove-IsGood b k c.orders (v.distinct, v.filed, v.bounded)) refl)

touch-IsGood :
    (b : ℕ) (k : String) (e : Entry) (now : Time) (m : Dict Entry)
    → lookup k m ≡ some e
    → IsGood b m
    → IsGood b (insert k (record e { last_access = now }) m)
touch-IsGood b k e now m found (ds, fs, le) = (
  insert-DistinctKeys k _ m ds,
  Each-insert IsFiled k _ m
      (let filed = Each-lookup IsFiled k m fs found in
        record { nonempty = filed.nonempty; keyed = filed.keyed })
      fs,
  omega (arith, length-insert_present k _ m e found),
)

touch_entry-IsGood :
    (b : ℕ) (ttl : Duration) (now : Time) (k : String) (m : Dict Entry) (e : Option Entry)
    → lookup k m ≡ e
    → IsGood b m
    → IsGood b (touch_entry now (find_entry ttl now e) e k m)
unfolding begin_get
touch_entry-IsGood b ttl now k m none h g = g
touch_entry-IsGood b ttl now k m (some e) h g = elim (Bool-cases (expired ttl now e)) [
  | inl old ↦ rw old g
  | inr young ↦ rw young (touch-IsGood b k e now m h g)
]

begin_get-IsValid :
    (b : ℕ) (now : Time) (k : String) (c : OrderCache)
    → IsValid b c
    → IsValid b (begin_get now k c).0
unfolding begin_get
begin_get-IsValid b now k c v =
    with_orders v
      (touch_entry-IsGood b c.ttl now k c.orders (lookup k c.orders) refl
        (v.distinct, v.filed, v.bounded))
      refl

finish_get-IsValid :
    (b : ℕ) (found : Found) (k : String) (c : OrderCache)
    → IsValid b c
    → IsValid b (finish_get found k c).0
unfolding finish_get
finish_get-IsValid b stale k c v =
    with_orders v (remove-IsGood b k c.orders (v.distinct, v.filed, v.bounded)) refl
finish_get-IsValid b missing k c v = with_orders v (v.distinct, v.filed, v.bounded) refl
finish_get-IsValid b (fresh o) k c v = with_orders v (v.distinct, v.filed, v.bounded) refl

Step-IsValid : {b : ℕ} {c d : OrderCache} → Step b c d → IsValid b c → IsValid b d
unfolding delete clear load_all cleanup
Step-IsValid {b} {c} (begin_get_step now k) v = begin_get-IsValid b now k c v
Step-IsValid {b} {c} (finish_get_step found k) v = finish_get-IsValid b found k c v
Step-IsValid {b} {c} (set_step now o) v = set-IsValid b now o c v
Step-IsValid {b} {c} (load_all_step now os le) v =
    with_orders v (load_into-IsGood b now os [] tt tt (omega arith)) refl
Step-IsValid {b} {c} (delete_step k) v =
    with_orders v (remove-IsGood b k c.orders (v.distinct, v.filed, v.bounded)) refl
Step-IsValid clear_step v = with_orders v (tt, tt, omega (arith, v.positive)) refl
Step-IsValid {b} {c} (cleanup_step now) v =
    delete_expired-IsValid b (expired_keys c.ttl now c.orders) c v
Step-IsValid {b} {c} (reorder_step m p) v =
    with_orders v
      (
        perm-DistinctKeys p v.distinct,
        Each-perm IsFiled p v.filed,
        omega (arith, length-perm p, v.bounded),
      )
      refl

-- From a valid cache, whatever calls of the methods follow, interleaved in any order, with `Get` in
-- two sections and any range order: each key stands once and is not empty, each entry stands under the UID
-- of its order, and there are never more entries than the bound, which is the largest of 1, the
-- configured size and the lengths of the lists that were loaded.
pub Reach-IsValid : {b : ℕ} {c d : OrderCache} → IsValid b c → Reach b c d → IsValid b d
Reach-IsValid v here = v
Reach-IsValid v (next r s) = Step-IsValid s (Reach-IsValid v r)
