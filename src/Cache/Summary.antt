-- ===== src/Cache/Summary.antt =====
-- GetStats of internal/cache/cache.go, with the hit rate as a float.
use order_flow.Prelude.{ℕ, ◌+◌, ◌-◌, ◌%◌, ◌^◌, leb, ℤ, pos, negsuc, ltb_ℤ, if◌then◌else◌, max_int}
use order_flow.Floats.{Floats}
use order_flow.Cache.{OrderCache, size}

-- `interfaces.CacheStats`, over the type of its float
pub record CacheStats (F : Type 0) : Type 0 where
  pub size : ℕ
  pub hits : ℤ
  pub misses : ℤ
  pub hit_rate : F
  pub evictions : ℤ
  pub expirations : ℤ

-- A 64-bit integer by its bits, and back.
bits : ℤ → ℕ
bits (pos n) = n % 2 ^ 64
bits (negsuc n) = 2 ^ 64 - 1 - n % 2 ^ 64

from_bits : ℕ → ℤ
from_bits k = if leb k max_int then pos k else negsuc (2 ^ 64 - 1 - k)

-- The sum of two 64-bit integers, which wraps around.
add_int : ℤ → ℤ → ℤ
unfolding bits from_bits
add_int a b = from_bits ((bits a + bits b) % 2 ^ 64)

module _ (fl : Floats) where
  open fl use {Float, of_int, mul, div}

  hit_rate : ℤ → ℤ → Float
  unfolding add_int
  hit_rate hits misses =
      let total = add_int hits misses in
      if ltb_ℤ (pos 0) total
      then mul (div (of_int hits) (of_int total)) (of_int (pos 100))
      else of_int (pos 0)

  -- `GetStats`
  unfoldable pub get_stats : OrderCache → CacheStats Float
  unfolding hit_rate
  get_stats c = record {
    size = size c;
    hits = c.stats.hits;
    misses = c.stats.misses;
    hit_rate = hit_rate c.stats.hits c.stats.misses;
    evictions = c.stats.evictions;
    expirations = c.stats.expirations;
  }
