-- ===== src/Lifecycle/Termination.antt =====
-- Start and Stop of internal/lifecycle/lifecycle.go return, once the services do.
use mathlib.Core.Option.{some_inj}
use order_flow.Prelude.{
  ◌≡◌, refl, sym, ap, ◌∙◌, subst, arith, Bool, true, false, inl, inr, ℕ, zero, suc, ◌≤◌, ◌+◌, ◌*◌,
  Option, none, some, List, [], ◌∷◌, ◌++◌, length, length-append, Option-cases,
}
use order_flow.Errors.{GoError}
use order_flow.Lifecycle.{
  Manager, Method, start, stop, Run, Event, end_at, close, receive, first, taken, begin, pick,
  end_one, close_channel, receive_one, step, run,
}
use order_flow.Lifecycle.Sound.{run-cons}

-- What is left of a run: two steps of each service that runs, one of each error in the channel, the
-- closing and the return.
abbrev to_do : Bool → Option (Option GoError) → ℕ
to_do false none = 2
to_do true none = 1
to_do false (some a) = 1
to_do true (some a) = 0

to_do-close : (a : Option (Option GoError)) → to_do false a ≡ suc (to_do true a)
to_do-close none = refl
to_do-close (some a) = refl

to_do-return : (b : Bool) (a : Option GoError) → to_do b none ≡ suc (to_do b (some a))
to_do-return false a = refl
to_do-return true a = refl

module _ {Svc : Type 0} where
  unfoldable pub measure : Run Svc → ℕ
  measure r = length r.running * 2 + length r.channel + to_do r.closed r.returned

  pick-length :
      (k : ℕ) (l : List Svc) (p : Svc × List Svc) → pick k l ≡ some p → length l ≡ suc (length p.1)
  unfolding pick
  pick-length k [] p h = ground arith
  pick-length zero (t ∷ l) p h = ap (λ q. suc (length q.1)) (some_inj.0 h)
  pick-length (suc k) (t ∷ l) p h = elim (Option-cases (pick k l)) [
    | inl h' ↦ let bad : none ≡ some p = sym (rw h' refl) ∙ h in ground arith
    | inr ((u, others), h') ↦
        let ih = pick-length k l (u, others) h' in
        let opened : some (u, t ∷ others) ≡ some p = ground arith in
        let e = ap (λ q. length q.1) (some_inj.0 opened) in omega (arith, ih, e)
  ]

  end_one-measure :
      (k : ℕ) (answer : Option GoError) (r r' : Run Svc) (picked : Option (Svc × List Svc))
      → pick k r.running ≡ picked
      → end_one answer r picked ≡ some r'
      → suc (measure r') ≤ measure r
  unfolding end_one measure
  end_one-measure k answer r r' none at h = ground arith
  end_one-measure k none r r' (some (s, rest)) at h =
      let n = pick-length k r.running (s, rest) at in
      subst (λ x. suc (measure x) ≤ measure r) (some_inj.0 h) (omega (arith, n))
  end_one-measure k (some e) r r' (some (s, rest)) at h =
      let n = pick-length k r.running (s, rest) at in
      let l = length-append r.channel (e ∷ []) in
      subst (λ x. suc (measure x) ≤ measure r) (some_inj.0 h) (omega (arith, n, l))

  close_channel-measure :
      (r r' : Run Svc) (running : List Svc) (closed : Bool)
      → r.running ≡ running
      → r.closed ≡ closed
      → close_channel r running closed ≡ some r'
      → suc (measure r') ≤ measure r
  unfolding close_channel measure
  close_channel-measure r r' [] false at c h =
      let now = ap (λ b. to_do b r.returned) c in
      subst (λ x. suc (measure x) ≤ measure r) (some_inj.0 h)
        (omega (arith, now, to_do-close r.returned))
  close_channel-measure r r' [] true at c h = ground arith
  close_channel-measure r r' (s ∷ rest) closed at c h = ground arith

  receive_one-measure :
      (m : Method) (r r' : Run Svc) (channel : List GoError) (closed : Bool)
      (returned : Option (Option GoError))
      → r.channel ≡ channel
      → r.closed ≡ closed
      → r.returned ≡ returned
      → receive_one m r channel closed returned ≡ some r'
      → suc (measure r') ≤ measure r
  unfolding receive_one measure
  receive_one-measure m r r' channel closed (some answer) ch c ret h = ground arith
  receive_one-measure m r r' [] false none ch c ret h = ground arith
  receive_one-measure m r r' [] true none ch c ret h =
      let now = ap (λ x. to_do r.closed x) ret in
      let done = to_do-return r.closed (first r.errors) in
      subst (λ x. suc (measure x) ≤ measure r) (some_inj.0 h) (omega (arith, now, done))
  receive_one-measure start r r' (e ∷ rest) closed none ch c ret h =
      let now = ap (λ x. to_do r.closed x) ret in
      let taken = ap length ch in
      let done = to_do-return r.closed (some e) in
      subst (λ x. suc (measure x) ≤ measure r) (some_inj.0 h) (omega (arith, now, taken, done))
  receive_one-measure stop r r' (e ∷ rest) closed none ch c ret h =
      let now = ap (λ x. to_do r.closed x) ret in
      let taken = ap length ch in
      subst (λ x. suc (measure x) ≤ measure r) (some_inj.0 h) (omega (arith, now, taken))

  step-measure :
      (m : Method) (e : Event) (r r' : Run Svc)
      → step m e r ≡ some r'
      → suc (measure r') ≤ measure r
  unfolding step
  step-measure m (end_at k answer) r r' h = end_one-measure k answer r r' (pick k r.running) refl h
  step-measure m close r r' h = close_channel-measure r r' r.running r.closed refl refl h
  step-measure m receive r r' h =
      receive_one-measure m r r' r.channel r.closed r.returned refl refl refl h

  run-measure :
      (m : Method) (es : List Event) (r r' : Run Svc)
      → run m es r ≡ some r'
      → length es + measure r' ≤ measure r
  unfolding run
  run-measure m [] r r' h = let e = ap measure (some_inj.0 h) in omega (arith, e)
  run-measure m (e ∷ es) r r' h =
      let (r1, f, rest) = run-cons m e es r r' h in
      omega (arith, step-measure m e r r1 f, run-measure m es r1 r' rest)

  -- A run that has not returned has a step: of a service that answers, the closing, or the receiving.
  not_stuck :
      (m : Method) (r : Run Svc) (running : List Svc) (closed : Bool) (channel : List GoError)
      → r.running ≡ running
      → r.closed ≡ closed
      → r.channel ≡ channel
      → r.returned ≡ none
      → (e : Event) × (r' : Run Svc) × (step m e r ≡ some r')
  unfolding step pick end_one close_channel receive_one
  not_stuck m r (s ∷ rest) closed channel at c ch ret =
      (end_at 0 none, record r { running = rest; ended = r.ended ++ ((s, none) ∷ []) }, rw at refl)
  not_stuck m r [] false channel at c ch ret = (close, record r { closed = true }, rw (at, c) refl)
  not_stuck m r [] true [] at c ch ret =
      (receive, record r { returned = some (first r.errors) }, rw (ch, c, ret) refl)
  not_stuck m r [] true (e ∷ rest) at c ch ret =
      let now = record r { channel = rest; errors = r.errors ++ (e ∷ []); returned = taken m e } in
      (receive, now, rw (ch, c, ret) refl)

  -- Start and Stop terminate, provided that the Start or Stop of each service does: over n services,
  -- under any interleaving, at most 2 n + 2 steps are made, and while the method has not returned there
  -- is a next step.
  pub run-terminates :
      (m : Method) (g : Manager Svc) (es : List Event) (r : Run Svc)
      → run m es (begin g) ≡ some r
      → (length es ≤ length g.services * 2 + 2)
        × (r.returned ≡ none → (e : Event) × (r' : Run Svc) × (step m e r ≡ some r'))
  unfolding measure begin
  run-terminates m g es r h = (
    omega (arith, run-measure m es (begin g) r h),
    λ waits. not_stuck m r r.running r.closed r.channel refl refl refl waits,
  )
