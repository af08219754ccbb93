-- ===== src/Messages/Attempted.antt =====
-- The attempts of an operation that the retry service runs, in the order of their results: those before
-- the first success, or all of them.
use order_flow.Prelude.{
  ℕ, zero, suc, ◌≤◌, ◌≡◌, ◌⊎◌, inl, inr, refl, sym, subst, ap, ◌∙◌, Option, none, some, arith,
  Option-cases,
}
use order_flow.Errors.{GoError}
use order_flow.Retry.Attempts.{world_after, error_at, AllFail}

module _ {S : Type 0} (op : S → Option GoError × S) where
  -- One of the attempts up to the given one is the first to succeed, or all of them fail.
  pub first_success :
      (n : ℕ) (s : S)
      → ((k : ℕ) × (k ≤ n) × AllFail op k s × (error_at op k s ≡ none))
        ⊎ ((e : GoError) × AllFail op n s × (error_at op n s ≡ some e))
  unfolding world_after
  first_success zero s = elim (Option-cases (op s).0) [
    | inl h ↦ inl (0, omega arith, tt, h)
    | inr (e, h) ↦ inr (e, tt, h)
  ]
  first_success (suc n) s = elim (Option-cases (op s).0) [
    | inl h ↦ inl (0, omega arith, tt, h)
    | inr (e, h) ↦ elim (first_success n (op s).1) [
      | inl (k, le, fails, ok) ↦ inl (suc k, omega arith, ((e, h), fails), ok)
      | inr (c, fails, err) ↦ inr (c, ((e, h), fails), err)
    ]
  ]

  -- The world after one more attempt.
  pub world_after-suc : (k : ℕ) (s : S) → world_after op (suc k) s ≡ (op (world_after op k s)).1
  unfolding world_after
  world_after-suc zero s = refl
  world_after-suc (suc k) s = world_after-suc k (op s).1

  -- An operation that fails and changes nothing fails in the same way each time.
  pub stuck :
      (n : ℕ) (s : S) (e : GoError) → op s ≡ (some e, s) → AllFail op n s × (world_after op n s ≡ s)
  unfolding world_after
  stuck zero s e h = (tt, refl)
  stuck (suc n) s e h =
      let same = ap (λ r. r.1) h in
      let (fails, at) = stuck n s e h in
      (
        ((e, ap (λ r. r.0) h), subst (AllFail op n) (sym same) fails),
        ap (world_after op n) same ∙ at,
      )
