-- ===== src/Prelude/Maps.antt =====
-- A Go `map[string]V` as an association list: each key stands once where `DistinctKeys` holds.
use Prim.Native.Nat.{suc, ◌+◌, ◌≤◌}
use Prim.Native.String.{String}
use mathlib.Core.Path.{◌≡◌, refl, ap}
use mathlib.Core.Logic.{inl, inr}
use mathlib.Core.Bool.{Bool}
use mathlib.Core.Option.{Option, none, some}
use mathlib.Core.List.{List, [], ◌∷◌}
use native.Mathlib.Omega.{arith}
use text.Mathlib.Text.{◌==◌ as text_eq}
use text.Mathlib.TextEquality.{eq_iff}
use order_flow.Prelude.Tests.{if◌then◌else◌, Bool-cases}
use order_flow.Prelude.Lists.{length}

abbrev pub str_eq : String → String → Bool
str_eq = text_eq

abbrev pub Dict : Type 0 → Type 0
Dict V = List (String × V)

module _ {V : Type 0} where
  -- `v, ok := m[key]`
  unfoldable pub lookup : String → Dict V → Option V
  lookup key [] = none
  lookup key (entry ∷ m) = if str_eq entry.0 key then some entry.1 else lookup key m

  -- `m[key] = value`: in place, or at the end
  unfoldable pub insert : String → V → Dict V → Dict V
  insert key value [] = (key, value) ∷ []
  insert key value (entry ∷ m) =
      if str_eq entry.0 key then (key, value) ∷ m else entry ∷ insert key value m

  -- `delete(m, key)`
  unfoldable pub remove : String → Dict V → Dict V
  remove key [] = []
  remove key (entry ∷ m) =
      let rest = remove key m in if str_eq entry.0 key then rest else entry ∷ rest

  pub lookup-insert :
      (key asked : String) (value : V) (m : Dict V)
      → lookup asked (insert key value m)
        ≡ (if str_eq key asked then some value else lookup asked m)
  unfolding insert lookup
  lookup-insert key asked value [] = refl
  lookup-insert key asked value (entry ∷ m) = ground (
    arith,
    lookup-insert key asked value m,
    eq_iff entry.0 key,
    eq_iff entry.0 asked,
    eq_iff key asked,
  )

  pub lookup-remove :
      (key asked : String) (m : Dict V)
      → lookup asked (remove key m) ≡ (if str_eq key asked then none else lookup asked m)
  unfolding remove lookup
  lookup-remove key asked [] = ground arith
  lookup-remove key asked (entry ∷ m) =
      ground (
        arith,
        lookup-remove key asked m,
        eq_iff entry.0 key,
        eq_iff entry.0 asked,
        eq_iff key asked,
      )

  pub length-insert-le : (k : String) (v : V) (m : Dict V) → length (insert k v m) ≤ length m + 1
  unfolding insert
  length-insert-le k v [] = omega arith
  length-insert-le k v ((j, w) ∷ m) = ground (arith, length-insert-le k v m)

  pub length-remove-le : (k : String) (m : Dict V) → length (remove k m) ≤ length m
  unfolding remove
  length-remove-le k [] = omega arith
  length-remove-le k ((j, w) ∷ m) = ground (arith, length-remove-le k m)

  -- Writing to a present key adds no entry.
  pub length-insert_present :
      (k : String) (v : V) (m : Dict V) (w : V)
      → lookup k m ≡ some w
      → length (insert k v m) ≡ length m
  unfolding lookup insert
  length-insert_present k v [] w h = cc
  length-insert_present k v ((j, u) ∷ m) w h = elim (Bool-cases (str_eq j k)) [
    | inl e ↦ rw e
    | inr e ↦ rw e (ap suc (length-insert_present k v m w (ground arith)))
  ]
