-- ===== src/Repository/Saving.antt =====
-- SaveOrder (internal/db/db.go) saves all of an order or nothing.
use order_flow.Prelude.{
  ◌≡◌, refl, sym, ap, ◌∙◌, ◌⊎◌, inl, inr, false, Option, none, some, arith, Option-cases,
  Bool-cases, str_eq,
}
use order_flow.Model.{Order}
use order_flow.Errors.{GoError}
use order_flow.Database.{Server, CommitLaws, run_steps}
use order_flow.Repository.{Insertion, save_steps, close_transaction, save_order}

module _ {St : Type 0} (server : Server St Insertion) (laws : CommitLaws server) where
  -- How a SaveOrder that returns nil has ended: its insertions have all run, and the commit has
  -- installed them, or has failed, so that nothing is saved.
  pub record Saved (o : Order) (st st' : St) : Type 0 where
    pub all_ran : (run_steps server (save_steps o) st).0 ≡ none
    pub outcome :
        (((server.commit st (run_steps server (save_steps o) st).1).0 ≡ none)
          × (st' ≡ (run_steps server (save_steps o) st).1))
        ⊎ (((e : GoError) × ((server.commit st (run_steps server (save_steps o) st).1).0 ≡ some e))
            × (st' ≡ st))

  close-failed :
      (st view : St) (err : Option GoError) (e : GoError)
      → (close_transaction server st err view).0 ≡ some e
      → (close_transaction server st err view).1 ≡ st
  unfolding close_transaction
  close-failed st view none e h = ground arith
  close-failed st view (some c) e h = refl

  close-done :
      (st view : St) (err : Option GoError)
      → (close_transaction server st err view).0 ≡ none
      → (err ≡ none) × ((close_transaction server st err view).1 ≡ (server.commit st view).1)
  unfolding close_transaction
  close-done st view none h = (refl, refl)
  close-done st view (some c) h = ground arith

  -- It is refused before the transaction, or it runs its steps in it.
  save_order-cases :
      (o : Order) (st : St)
      → ((c : GoError) × (save_order server (some o) st ≡ (some c, st)))
        ⊎ (save_order server (some o) st
            ≡ close_transaction server st
                (run_steps server (save_steps o) st).0
                (run_steps server (save_steps o) st).1)
  unfolding save_order
  save_order-cases o st = elim (Bool-cases (str_eq o.order_uid "")) [
    | inl e ↦ rw e (inl (_, refl))
    | inr ne ↦ elim (Option-cases (server.begin st)) [
      | inl h ↦ rw (ne, h) (inr refl)
      | inr (c, h) ↦ rw (ne, h) (inl (c, refl))
    ]
  ]

  closed :
      (o : Order) (st : St)
      → (save_order server (some o) st).0 ≡ none
      → save_order server (some o) st
        ≡ close_transaction server st
            (run_steps server (save_steps o) st).0
            (run_steps server (save_steps o) st).1
  closed o st ok = elim (save_order-cases o st) [
    | inl (c, at) ↦ let bad = sym (ap (λ r. r.0) at) ∙ ok in ground arith
    | inr at ↦ at
  ]

  -- SaveOrder is atomic. Where it returns an error, the database is as it was. Where it returns nil, all
  -- the insertions have run, and either they are in the database, or the commit has failed, nothing of
  -- the order is saved, and nil is returned all the same. A commit installs the transaction, or fails
  -- and changes nothing.
  pub save_order-atomic :
      (o : Order) (st : St)
      → ((e : GoError)
          → (save_order server (some o) st).0 ≡ some e
          → (save_order server (some o) st).1 ≡ st)
        × ((save_order server (some o) st).0 ≡ none → Saved o st (save_order server (some o) st).1)
  save_order-atomic o st =
      let (err, view) = run_steps server (save_steps o) st in
      (
        λ e h. elim (save_order-cases o st) [
          | inl (c, at) ↦ ap (λ r. r.1) at
          | inr at ↦ ap (λ r. r.1) at ∙ close-failed st view err e (sym (ap (λ r. r.0) at) ∙ h)
        ],
        λ ok.
            let at = closed o st ok in
            let (ran, kept) = close-done st view err (sym (ap (λ r. r.0) at) ∙ ok) in
            record {
              all_ran = ran;
              outcome = elim (Option-cases (server.commit st view).0) [
                | inl done ↦ inl (done, ap (λ r. r.1) at ∙ kept ∙ laws.commit_done st view done)
                | inr (e, f) ↦
                    inr ((e, f), ap (λ r. r.1) at ∙ kept ∙ laws.commit_failed st view e f)
              ];
            },
      )

  -- A commit that fails is taken for a success: all statements of an order with a UID have run.
  pub save_order-dropped :
      (o : Order) (st : St) (e : GoError)
      → str_eq o.order_uid "" ≡ false
      → server.begin st ≡ none
      → (run_steps server (save_steps o) st).0 ≡ none
      → (server.commit st (run_steps server (save_steps o) st).1).0 ≡ some e
      → save_order server (some o) st ≡ (none, st)
  unfolding save_order close_transaction
  save_order-dropped o st e ne begun ran failed =
      ground (arith, laws.commit_failed st (run_steps server (save_steps o) st).1 e)
