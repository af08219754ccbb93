-- ===== src/Migrations/Sorting.antt =====
-- The order in which AddMigration (internal/migrations/migrator.go) keeps the migrations.
use mathlib.Core.List.{Permᴰ, append_assoc}
use mathlib.Core.List.Permᴰ
use order_flow.Prelude.{
  refl, subst, map, inl, inr, none, List, [], ◌∷◌, ◌++◌, ℤ, ltb_ℤ, ◌≤ℤ◌, arith, All, Bool-cases,
  String,
}
use order_flow.Migrations.{Migration, Migrator, place, sort_by_version, add_migration}

-- What a call of AddMigration adds.
abbrev pub added : ℤ × String × String × String → Migration
added (version, name, up, down) = record {
  version = version;
  name = name;
  up_sql = up;
  down_sql = down;
  applied_at = none;
}

unfoldable pub add_all : List (ℤ × String × String × String) → Migrator → Migrator
add_all [] m = m
add_all ((version, name, up, down) ∷ xs) m = add_all xs (add_migration m version name up down)

-- The versions never fall.
abbrev pub IsSorted : List Migration → Type 0
IsSorted [] = Unit
IsSorted (m ∷ ms) = All (λ n. m.version ≤ℤ n.version) ms × IsSorted ms

le-All :
    (a b : ℤ) (ms : List Migration)
    → a ≤ℤ b
    → All (λ n. b ≤ℤ n.version) ms
    → All (λ n. a ≤ℤ n.version) ms
le-All a b [] le h = tt
le-All a b (m ∷ ms) le (h, hs) = (omega arith, le-All a b ms le hs)

place-All :
    (v : ℤ) (m : Migration) (ms : List Migration)
    → v ≤ℤ m.version
    → All (λ n. v ≤ℤ n.version) ms
    → All (λ n. v ≤ℤ n.version) (place m ms)
unfolding place
place-All v m [] le h = (le, tt)
place-All v m (n ∷ ns) le (h, hs) = ground (arith, place-All v m ns le hs)

place-IsSorted : (m : Migration) (ms : List Migration) → IsSorted ms → IsSorted (place m ms)
unfolding place
place-IsSorted m [] s = (tt, tt)
place-IsSorted m (n ∷ ns) (h, s) = elim (Bool-cases (ltb_ℤ n.version m.version)) [
  | inl lt ↦ rw lt (place-All n.version m ns (ground arith) h, place-IsSorted m ns s)
  | inr ge ↦ rw ge ((ground arith, le-All m.version n.version ns (ground arith) h), (h, s))
]

sort-IsSorted : (ms : List Migration) → IsSorted (sort_by_version ms)
unfolding sort_by_version
sort-IsSorted [] = tt
sort-IsSorted (m ∷ ms) = place-IsSorted m (sort_by_version ms) (sort-IsSorted ms)

place-perm : (m : Migration) (ms : List Migration) → Permᴰ (m ∷ ms) (place m ms)
unfolding place
place-perm m [] = Permᴰ.cons refl Permᴰ.nil
place-perm m (n ∷ ns) = elim (Bool-cases (ltb_ℤ n.version m.version)) [
  | inl lt ↦ rw lt (Permᴰ.trans (Permᴰ.swap refl refl) (Permᴰ.cons refl (place-perm m ns)))
  | inr ge ↦ rw ge (Permᴰ.refl (m ∷ n ∷ ns))
]

sort-perm : (ms : List Migration) → Permᴰ ms (sort_by_version ms)
unfolding sort_by_version
sort-perm [] = Permᴰ.nil
sort-perm (m ∷ ms) =
    Permᴰ.trans (Permᴰ.cons refl (sort-perm ms)) (place-perm m (sort_by_version ms))

add_migration-IsSorted :
    (m : Migrator) (x : ℤ × String × String × String)
    → IsSorted (add_migration m x.0 x.1 x.2 x.3).migrations
      × Permᴰ (m.migrations ++ (added x ∷ [])) (add_migration m x.0 x.1 x.2 x.3).migrations
unfolding add_migration
add_migration-IsSorted m (version, name, up, down) =
    let all = m.migrations ++ (added (version, name, up, down) ∷ []) in
    (sort-IsSorted all, sort-perm all)

-- Whatever migrations are added in whatever order, the migrator has its own and exactly those, each as
-- often as it was added, sorted by their versions; it was sorted before, as a new one is.
pub add_all-IsSorted :
    (xs : List (ℤ × String × String × String)) (m : Migrator)
    → IsSorted m.migrations
    → IsSorted (add_all xs m).migrations
      × Permᴰ (m.migrations ++ map added xs) (add_all xs m).migrations
unfolding add_all
add_all-IsSorted [] m s = (s, Permᴰ.append-nil m.migrations)
add_all-IsSorted ((version, name, up, down) ∷ xs) m s =
    let x : ℤ × String × String × String = (version, name, up, down) in
    let (sorted, perm) = add_migration-IsSorted m x in
    let (sorted', perm') = add_all-IsSorted xs (add_migration m version name up down) sorted in
    (
      sorted',
      subst (λ l. Permᴰ l (add_all xs (add_migration m version name up down)).migrations)
          (append_assoc m.migrations (added x ∷ []) (map added xs))
          (Permᴰ.trans (Permᴰ.append_right (map added xs) perm) perm'),
    )
