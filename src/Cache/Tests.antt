-- ===== src/Cache/Tests.antt =====
-- Runs of the cache (internal/cache), and its theorems at concrete inputs.
use order_flow.Prelude.{
  ◌≤◌, ◌≡◌, refl, false, none, some, [], ◌∷◌, pos, arith, String, lookup, insert, remove, str_eq,
  sub_time, if◌then◌else◌, succ_int, Each,
}
use order_flow.Model.{Order}
use order_flow.Samples.{sample_order}
use order_flow.Cache.{
  Entry, OrderCache, new_order_cache, expired, delete, begin_get, finish_get, get, oldest, older,
  evict_oldest, set, load_into, load_all, size, clear, expired_keys, delete_expired, cleanup, stop,
  new_entry,
}
use order_flow.Cache.Invariant.{
  IsValid, here, next, set_step, begin_get_step, cleanup_step, Reach-IsValid,
}
use order_flow.Cache.Reads.{gets}
use order_flow.Cache.Writes.{lookup-set_full}
use order_flow.Cache.Cleanup.{get-cleanup}
use order_flow.Cache.Race.{finish_get-set}
use order_flow.Messages.Samples.{whole}
use order_flow.Cache.Summary.{get_stats}

program : Unit {0}
unfolding lookup insert remove sub_time new_order_cache expired delete begin_get finish_get get
    oldest evict_oldest set load_into load_all size clear expired_keys delete_expired cleanup stop
    gets older
program = tt

abbrev order_a : Order
order_a = sample_order "order-a"

abbrev order_b : Order
order_b = sample_order "order-b"

abbrev order_c : Order
order_c = sample_order "order-c"

-- Room for two, and a time to live of 100.
abbrev empty : OrderCache
empty = record {
  orders = [];
  max_size = pos 2;
  ttl = pos 100;
  cleanup_interval = pos 300000000000;
  stopped = false;
  stats = record { hits = pos 0; misses = pos 0; evictions = pos 0; expirations = pos 0 };
}

abbrev two : OrderCache
two = record empty {
  orders = ("order-a", new_entry 10 order_a) ∷ ("order-b", new_entry 5 order_b) ∷ [];
}

new_is_empty : new_order_cache (pos 2) (pos 100) ≡ empty
unfolding program
new_is_empty = refl

set_twice : (set 5 (some order_b) (set 10 (some order_a) empty)).orders ≡ two.orders
unfolding program
set_twice = refl

-- The entry with the smaller creation time goes.
evicts_b : (get 20 "order-b" (set 15 (some order_c) two)).1 ≡ none
unfolding program
evicts_b = refl

-- To set a present key of a full cache evicts another entry all the same.
evicts_other : size (set 15 (some order_a) two) ≡ 1
unfolding program
evicts_other = refl

loads_past_the_size :
    size (load_all 1 (some order_a ∷ none ∷ some order_b ∷ some order_c ∷ []) empty) ≡ 3
unfolding program
loads_past_the_size = refl

stops_once : (elim (stop two) [ some c ↦ stop c | none ↦ some two ]) ≡ none
unfolding program
stops_once = refl

two-IsValid : IsValid 2 two
unfolding lookup
two-IsValid = record {
  distinct = (refl, (refl, tt));
  filed =
      (record { nonempty = refl; keyed = refl }, (record { nonempty = refl; keyed = refl }, tt));
  bounded = omega arith;
  room = omega arith;
  positive = omega arith;
}

Reach-IsValid_example :
    IsValid 2 (cleanup 300 (begin_get 40 "order-a" (set 20 (some order_c) two)).0)
Reach-IsValid_example = Reach-IsValid two-IsValid (
    next (next (next here (set_step 20 (some order_c))) (begin_get_step 40 "order-a"))
      (cleanup_step 300))

lookup-set_full_example :
    (k : String) × (e : Entry) × (lookup k two.orders ≡ some e)
    × Each (λ j x. e.created_at ≤ x.created_at) two.orders
    × ((j : String)
        → lookup j (set 15 (some order_c) two).orders ≡ (
            if str_eq "order-c" j
            then some (new_entry 15 order_c)
            else if str_eq k j
            then none
            else lookup j two.orders))
    × ((set 15 (some order_c) two).stats.evictions ≡ succ_int two.stats.evictions)
lookup-set_full_example = lookup-set_full 2 15 order_c two two-IsValid refl refl (λ e. cc)

get-cleanup_example : (get 110 "order-a" (cleanup 107 two)).1 ≡ (get 110 "order-a" two).1
get-cleanup_example = get-cleanup 107 110 "order-a" two two-IsValid.distinct (omega arith)

finish_get-set_example :
    let found = begin_get 200 "order-a" two in
    let lost = (finish_get found.1 "order-a" (set 201 (some order_a) found.0)).0 in
    (lookup "order-a" lost.orders ≡ none) × ((get 202 "order-a" lost).1 ≡ none)
unfolding program
finish_get-set_example = finish_get-set 201 200 202 order_a two refl refl

summary : get_stats whole (new_order_cache (pos 2) (pos 100)) ≡ record {
  size = 0;
  hits = pos 0;
  misses = pos 0;
  hit_rate = pos 0;
  evictions = pos 0;
  expirations = pos 0;
}
unfolding get_stats new_order_cache size
summary = refl
