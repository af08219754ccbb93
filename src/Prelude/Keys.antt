-- ===== src/Prelude/Keys.antt =====
-- String-keyed maps in which each key stands once, in any order.
use Prim.Native.Nat.{suc, ◌+◌}
use Prim.Native.String.{String}
use mathlib.Core.Path.{◌≡◌, refl, subst₂, ap, ◌∙◌}
use mathlib.Core.Logic.{inl, inr}
use mathlib.Core.Option.{none, some, some-injective}
use mathlib.Core.List.{List, [], ◌∷◌, Permᴰ}
use native.Mathlib.Omega.{arith}
use text.Mathlib.TextEquality.{eq_iff}
use order_flow.Prelude.Tests.{Bool-cases}
use order_flow.Prelude.Lists.{length}
use order_flow.Prelude.Maps.{Dict, str_eq, lookup, insert, remove, lookup-insert, lookup-remove}

module _ {V : Type 0} where
  abbrev pub DistinctKeys : Dict V → Type 0
  DistinctKeys [] = Unit
  DistinctKeys ((k, v) ∷ m) = (lookup k m ≡ none) × DistinctKeys m

  pub insert-DistinctKeys :
      (k : String) (v : V) (m : Dict V) → DistinctKeys m → DistinctKeys (insert k v m)
  unfolding lookup insert
  insert-DistinctKeys k v [] d = (refl, tt)
  insert-DistinctKeys k v ((j, w) ∷ m) (d, ds) =
      ground (arith, eq_iff j k, eq_iff k j, lookup-insert k j v m, insert-DistinctKeys k v m ds)

  pub remove-DistinctKeys : (k : String) (m : Dict V) → DistinctKeys m → DistinctKeys (remove k m)
  unfolding remove
  remove-DistinctKeys k [] d = tt
  remove-DistinctKeys k ((j, w) ∷ m) (d, ds) =
      ground (arith, lookup-remove k j m, remove-DistinctKeys k m ds)

  remove_absent : (k : String) (m : Dict V) → lookup k m ≡ none → remove k m ≡ m
  unfolding lookup remove
  remove_absent k [] h = refl
  remove_absent k ((j, w) ∷ m) h = ground (arith, remove_absent k m)

  -- Where keys are distinct, deleting a present key deletes one entry.
  pub length-remove :
      (k : String) (m : Dict V) (v : V)
      → DistinctKeys m
      → lookup k m ≡ some v
      → length (remove k m) + 1 ≡ length m
  unfolding lookup remove
  length-remove k [] v d h = cc
  length-remove k ((j, w) ∷ m) v (d, ds) h =
      ground (arith, eq_iff j k, length-remove k m v ds, remove_absent j m)

  lookup-none-perm : (k : String) {l m : Dict V} → Permᴰ l m → lookup k l ≡ none → lookup k m ≡ none
  unfolding lookup
  lookup-none-perm k Permᴰ.nil h = h
  lookup-none-perm k (Permᴰ.cons {a = a} {b = b} e p) h = ground (arith, lookup-none-perm k p)
  lookup-none-perm k (Permᴰ.swap e₁ e₂) h = ground arith
  lookup-none-perm k (Permᴰ.trans p q) h = lookup-none-perm k q (lookup-none-perm k p h)

  pub perm-DistinctKeys : {l m : Dict V} → Permᴰ l m → DistinctKeys l → DistinctKeys m
  unfolding lookup
  perm-DistinctKeys Permᴰ.nil d = d
  perm-DistinctKeys (Permᴰ.cons {a = a} {b = b} e p) d =
      ground (arith, perm-DistinctKeys p d.1, lookup-none-perm b.0 p)
  perm-DistinctKeys (Permᴰ.swap {a = a} {b = b} e₁ e₂) d =
      ground (arith, eq_iff a.0 b.0, eq_iff b.0 a.0)
  perm-DistinctKeys (Permᴰ.trans p q) d = perm-DistinctKeys q (perm-DistinctKeys p d)

  -- The order of the entries does not show in a lookup.
  pub lookup-perm :
      (k : String) {l m : Dict V} → Permᴰ l m → DistinctKeys l → lookup k m ≡ lookup k l
  unfolding lookup
  lookup-perm k Permᴰ.nil d = refl
  lookup-perm k (Permᴰ.cons {a = a} {b = b} e p) d = ground (arith, lookup-perm k p d.1)
  lookup-perm k (Permᴰ.swap {a = a} {b = b} e₁ e₂) d =
      ground (arith, eq_iff a.0 b.0, eq_iff b.0 a.0, eq_iff a.0 k, eq_iff b.0 k)
  lookup-perm k (Permᴰ.trans p q) d = lookup-perm k q (perm-DistinctKeys p d) ∙ lookup-perm k p d

pub length-perm {ℓ} : {A : Type ℓ} {l m : List A} → Permᴰ l m → length m ≡ length l
length-perm Permᴰ.nil = refl
length-perm (Permᴰ.cons e p) = ap suc (length-perm p)
length-perm (Permᴰ.swap e₁ e₂) = refl
length-perm (Permᴰ.trans p q) = length-perm q ∙ length-perm p

-- What holds of every entry holds of the one that a lookup finds, and the converse.
module _ {V : Type 0} (P : String → V → Type 0) where
  abbrev pub Each : Dict V → Type 0
  Each [] = Unit
  Each ((k, v) ∷ m) = P k v × Each m

  pub Each-lookup : (k : String) (m : Dict V) {v : V} → Each m → lookup k m ≡ some v → P k v
  unfolding lookup
  Each-lookup k [] all h = cc
  Each-lookup k ((j, w) ∷ m) {v} (p, ps) h = elim (Bool-cases (str_eq j k)) [
    | inl e ↦ subst₂ P ((eq_iff j k).0 e) (some-injective w v (ground arith)) p
    | inr e ↦ Each-lookup k m ps (ground arith)
  ]

  pub Each-insert : (k : String) (v : V) (m : Dict V) → P k v → Each m → Each (insert k v m)
  unfolding insert
  Each-insert k v [] p ps = (p, tt)
  Each-insert k v ((j, w) ∷ m) p (q, qs) = elim (Bool-cases (str_eq j k)) [
    | inl e ↦ rw e (p, qs)
    | inr e ↦ rw e (q, Each-insert k v m p qs)
  ]

  pub Each-remove : (k : String) (m : Dict V) → Each m → Each (remove k m)
  unfolding remove
  Each-remove k [] ps = tt
  Each-remove k ((j, w) ∷ m) (q, qs) = elim (Bool-cases (str_eq j k)) [
    | inl e ↦ rw e (Each-remove k m qs)
    | inr e ↦ rw e (q, Each-remove k m qs)
  ]

  pub Each-perm : {l m : Dict V} → Permᴰ l m → Each l → Each m
  Each-perm Permᴰ.nil ps = tt
  Each-perm (Permᴰ.cons e p) ps = (rw (← e) ps.0, Each-perm p ps.1)
  Each-perm (Permᴰ.swap e₁ e₂) ps = (rw (← e₂) ps.1.0, (rw (← e₁) ps.0, ps.1.1))
  Each-perm (Permᴰ.trans p q) ps = Each-perm q (Each-perm p ps)
