-- ===== src/Cache/Entries.antt =====
-- The loops over the entries of the cache (internal/cache/cache.go): the choice of the oldest entry
-- and the collection of the expired ones.
use order_flow.Prelude.{
  ◌≤◌, ◌≡◌, ◌≢◌, refl, sym, true, false, none, some, [], ◌∷◌, ◌⊎◌, inl, inr, arith, Bool-cases,
  ltb→lt, subst, zero_time, Time, before, String, str_eq, eq_iff, Dict, lookup, DistinctKeys, Each,
}
use order_flow.Cache.{Entry, older, oldest}

-- No key is empty, and an entry stands under the UID of its order.
pub record IsFiled (k : String) (e : Entry) : Type 0 where
  pub nonempty : str_eq k "" ≡ false
  pub keyed : e.order.order_uid ≡ k

-- `acc` is no later than any entry of the map.
abbrev pub IsOldest : String × Time → Dict Entry → Type 0
IsOldest acc m = Each (λ k e. acc.1 ≤ e.created_at) m

Each-weaken :
    (t u : Time) (m : Dict Entry)
    → t ≤ u
    → Each (λ k e. u ≤ e.created_at) m
    → Each (λ k e. t ≤ e.created_at) m
Each-weaken t u [] h ps = tt
Each-weaken t u ((j, e) ∷ m) h (p, ps) = (omega arith, Each-weaken t u m h ps)

-- What the loop has found when it ends: the accumulator it began with, or an entry of the map.
abbrev pub FromMap : String × Time → Dict Entry → Type 0
FromMap acc m =
    (e : Entry) × (lookup acc.0 m ≡ some e) × (e.created_at ≡ acc.1) × (str_eq acc.0 "" ≡ false)

lookup_later :
    (j k : String) (e x : Entry) (m : Dict Entry)
    → lookup j m ≡ none
    → lookup k m ≡ some x
    → lookup k ((j, e) ∷ m) ≡ some x
unfolding lookup
lookup_later j k e x m d h = ground (arith, eq_iff j k)

lookup_head : (j : String) (e : Entry) (m : Dict Entry) → lookup j ((j, e) ∷ m) ≡ some e
unfolding lookup
lookup_head j e m = ground (arith, eq_iff j j)

oldest_earlier :
    (acc : String × Time) (j : String) (e : Entry) (m : Dict Entry)
    → (str_eq acc.0 "" ≡ true) ⊎ (before e.created_at acc.1 ≡ true)
    → oldest acc ((j, e) ∷ m) ≡ oldest (j, e.created_at) m
unfolding oldest older
oldest_earlier (k, t) j e m h = ground arith

oldest_later :
    (k : String) (t : Time) (j : String) (e : Entry) (m : Dict Entry)
    → str_eq k "" ≡ false
    → before e.created_at t ≡ false
    → oldest (k, t) ((j, e) ∷ m) ≡ oldest (k, t) m
unfolding oldest older
oldest_later k t j e m ne later = ground arith

chosen :
    (j : String) (e : Entry) (m : Dict Entry)
    → IsFiled j e
    → lookup j m ≡ none
    → (r : String × Time) → (r ≡ (j, e.created_at)) ⊎ FromMap r m
    → FromMap r ((j, e) ∷ m)
chosen j e m f d r (inl h) = rw h (e, lookup_head j e m, refl, f.nonempty)
chosen j e m f d r (inr (x, found, time, ne)) = (x, lookup_later j r.0 e x m d found, time, ne)

kept :
    (j : String) (e : Entry) (m : Dict Entry) {acc : String × Time}
    → lookup j m ≡ none
    → (r : String × Time) → (r ≡ acc) ⊎ FromMap r m
    → (r ≡ acc) ⊎ FromMap r ((j, e) ∷ m)
kept j e m d r (inl h) = inl h
kept j e m d r (inr (x, found, time, ne)) = inr (x, lookup_later j r.0 e x m d found, time, ne)

-- The result `r` of the loop from `acc` over `m`: no later than `acc` and than every entry, and the
-- key and time of `acc` or of an entry.
abbrev pub Ends : String × Time → String × Time → Dict Entry → Type 0
Ends r acc m = (r.1 ≤ acc.1) × IsOldest r m × ((r ≡ acc) ⊎ FromMap r m)

oldest_from :
    (k : String) (t : Time) (m : Dict Entry)
    → str_eq k "" ≡ false
    → Each IsFiled m
    → DistinctKeys m
    → Ends (oldest (k, t) m) (k, t) m
unfolding oldest
oldest_from k t [] ne fs ds = (omega arith, tt, inl refl)
oldest_from k t ((j, e) ∷ m) ne (f, fs) (d, ds) = elim (Bool-cases (before e.created_at t)) [
  | inl earlier ↦
      let (le, all, end) = oldest_from j e.created_at m f.nonempty fs ds in
      subst (λ r. Ends r (k, t) ((j, e) ∷ m)) (sym (oldest_earlier (k, t) j e m (inr earlier)))
        (omega (arith, ltb→lt _ _ earlier), (le, all), inr (chosen j e m f d _ end))
  | inr later ↦
      let (le, all, end) = oldest_from k t m ne fs ds in
      subst (λ r. Ends r (k, t) ((j, e) ∷ m)) (sym (oldest_later k t j e m ne later))
        (le, (ground arith, all), kept j e m d _ end)
]

-- Over a map that is not empty, from the empty key: the loop ends with the key and the time of an
-- entry, and no entry is older.
pub oldest_lem :
    (m : Dict Entry)
    → m ≢ []
    → Each IsFiled m
    → DistinctKeys m
    → let r = oldest ("", zero_time) m in IsOldest r m × FromMap r m
oldest_lem [] ne fs ds = absurd (ne refl)
oldest_lem ((j, e) ∷ m) ne (f, fs) (d, ds) =
    let (le, all, end) = oldest_from j e.created_at m f.nonempty fs ds in
    subst (λ r. IsOldest r ((j, e) ∷ m) × FromMap r ((j, e) ∷ m))
      (sym (oldest_earlier ("", zero_time) j e m (inl (ground arith))))
      ((le, all), chosen j e m f d _ end)
