-- ===== src/Lifecycle/Sound.antt =====
-- The invariant of a run of Start or Stop (internal/lifecycle/lifecycle.go), which every step keeps.
use mathlib.Core.List.{append_assoc, Perm}
use mathlib.Core.List.Perm
use mathlib.Core.Option.{some_inj}
use order_flow.Prelude.{
  ◌≡◌, refl, sym, ap, ◌∙◌, subst, arith, Bool, true, false, inl, inr, ℕ, zero, suc, Option, none,
  some, List, [], ◌∷◌, ◌++◌, map, Option-cases, Bool-cases,
}
use order_flow.Errors.{GoError}
use order_flow.Lifecycle.{
  Manager, Method, start, stop, Run, Event, end_at, close, receive, first, send, begin, pick,
  end_one, close_channel, receive_one, step, run,
}

-- The errors among the answers, in their order.
abbrev pub errors_of : {Svc : Type 0} → List (Svc × Option GoError) → List GoError
errors_of [] = []
errors_of ((s, none) ∷ rest) = errors_of rest
errors_of ((s, some e) ∷ rest) = e ∷ errors_of rest

send-append :
    (answer : Option GoError) (xs ys : List GoError) → send answer (xs ++ ys) ≡ xs ++ send answer ys
send-append none xs ys = refl
send-append (some e) xs ys = append_assoc xs ys (e ∷ [])

module _ {Svc : Type 0} where
  errors_of-append :
      (xs : List (Svc × Option GoError)) (s : Svc) (answer : Option GoError)
      → errors_of (xs ++ ((s, answer) ∷ [])) ≡ send answer (errors_of xs)
  errors_of-append [] s none = refl
  errors_of-append [] s (some e) = refl
  errors_of-append ((t, none) ∷ xs) s answer = errors_of-append xs s answer
  errors_of-append ((t, some e) ∷ xs) s none = ap (λ l. e ∷ l) (errors_of-append xs s none)
  errors_of-append ((t, some e) ∷ xs) s (some d) = ap (λ l. e ∷ l) (errors_of-append xs s (some d))

  -- A picked service and the others are all services.
  pick-Perm : (k : ℕ) (l : List Svc) (p : Svc × List Svc) → pick k l ≡ some p → Perm l (p.0 ∷ p.1)
  unfolding pick
  pick-Perm k [] p h = ground arith
  pick-Perm zero (t ∷ l) p h = subst (λ q. Perm (t ∷ l) (q.0 ∷ q.1)) (some_inj.0 h) (Perm.refl _)
  pick-Perm (suc k) (t ∷ l) p h = elim (Option-cases (pick k l)) [
    | inl h' ↦ let bad : none ≡ some p = rw (sym h) (rw h' refl) in ground arith
    | inr ((u, others), h') ↦
        subst (λ q. Perm (t ∷ l) (q.0 ∷ q.1)) (some_inj.0 (sym (rw h' refl) ∙ h))
          (Perm.trans (Perm.cons t (pick-Perm k l (u, others) h')) (Perm.swap u t others))
  ]

  -- What holds throughout a run over the services.
  pub record Sound (m : Method) (services : List Svc) (r : Run Svc) : Type 0 where
    pub all_there : Perm services (map (λ x. x.0) r.ended ++ r.running)
    pub none_runs : r.closed ≡ true → r.running ≡ []
    pub accounted : errors_of r.ended ≡ r.errors ++ r.channel
    pub until : r.returned ≡ none → m ≡ start → r.errors ≡ []
    pub answered : (a : Option GoError) → r.returned ≡ some a → a ≡ first r.errors
    pub drained : r.returned ≡ some none → (r.closed ≡ true) × (r.channel ≡ [])
    pub stopped :
        (a : Option GoError) → r.returned ≡ some a → m ≡ stop → (r.closed ≡ true) × (r.channel ≡ [])

  pub begin-Sound : (m : Method) (g : Manager Svc) → Sound m g.services (begin g)
  unfolding begin
  begin-Sound m g = record {
    all_there = Perm.refl g.services;
    none_runs = λ h. ground arith;
    accounted = refl;
    until = λ h h'. refl;
    answered = λ a h. ground arith;
    drained = λ h. ground arith;
    stopped = λ a h h'. ground arith;
  }

  moved :
      (xs : List (Svc × Option GoError)) (s : Svc) (answer : Option GoError) (rest : List Svc)
      → map (λ x. x.0) xs ++ (s ∷ rest) ≡ map (λ x. x.0) (xs ++ ((s, answer) ∷ [])) ++ rest
  moved [] s answer rest = refl
  moved (x ∷ xs) s answer rest = ap (λ l. x.0 ∷ l) (moved xs s answer rest)

  -- A goroutine that ends finds the channel open.
  still_open :
      (m : Method) (services : List Svc) (k : ℕ) (r : Run Svc) (p : Svc × List Svc)
      → Sound m services r
      → pick k r.running ≡ some p
      → r.closed ≡ false
  unfolding pick
  still_open m services k r p sound h = elim (Bool-cases r.closed) [
    | inr c ↦ c
    | inl c ↦ let gone : pick k r.running ≡ none = rw (sound.none_runs c) refl in ground arith
  ]

  end_one-Sound :
      (m : Method) (services : List Svc) (k : ℕ) (answer : Option GoError) (r r' : Run Svc)
      (picked : Option (Svc × List Svc))
      → Sound m services r
      → pick k r.running ≡ picked
      → end_one answer r picked ≡ some r'
      → Sound m services r'
  unfolding end_one
  end_one-Sound m services k answer r r' none sound at h = ground arith
  end_one-Sound m services k answer r r' (some (s, rest)) sound at h =
      let c = still_open m services k r (s, rest) sound at in
      subst (Sound m services) (some_inj.0 h) (record {
        all_there = subst (Perm services) (moved r.ended s answer rest) (
            Perm.trans sound.all_there
              (Perm.append_left (map (λ x. x.0) r.ended) (pick-Perm k r.running (s, rest) at)));
        none_runs = λ h'. ground arith;
        accounted =
            errors_of-append r.ended s answer
            ∙ ap (send answer) sound.accounted
            ∙ send-append answer r.errors r.channel;
        until = sound.until;
        answered = sound.answered;
        drained = λ h'. let d = sound.drained h' in ground arith;
        stopped = λ a h' h''. let d = sound.stopped a h' h'' in ground arith;
      })

  close_channel-Sound :
      (m : Method) (services : List Svc) (r r' : Run Svc) (running : List Svc) (closed : Bool)
      → Sound m services r
      → r.running ≡ running
      → r.closed ≡ closed
      → close_channel r running closed ≡ some r'
      → Sound m services r'
  unfolding close_channel
  close_channel-Sound m services r r' [] false sound at c h =
      subst (Sound m services) (some_inj.0 h) (record {
        all_there = sound.all_there;
        none_runs = λ h'. at;
        accounted = sound.accounted;
        until = sound.until;
        answered = sound.answered;
        drained = λ h'. let d = sound.drained h' in ground arith;
        stopped = λ a h' h''. let d = sound.stopped a h' h'' in ground arith;
      })
  close_channel-Sound m services r r' [] true sound at c h = ground arith
  close_channel-Sound m services r r' (s ∷ rest) closed sound at c h = ground arith

  receive_one-Sound :
      (m : Method) (services : List Svc) (r r' : Run Svc) (channel : List GoError) (closed : Bool)
      (returned : Option (Option GoError))
      → Sound m services r
      → r.channel ≡ channel
      → r.closed ≡ closed
      → r.returned ≡ returned
      → receive_one m r channel closed returned ≡ some r'
      → Sound m services r'
  unfolding receive_one
  receive_one-Sound m services r r' channel closed (some answer) sound ch c ret h = ground arith
  receive_one-Sound m services r r' [] false none sound ch c ret h = ground arith
  receive_one-Sound m services r r' [] true none sound ch c ret h =
      subst (Sound m services) (some_inj.0 h) (record {
        all_there = sound.all_there;
        none_runs = sound.none_runs;
        accounted = sound.accounted;
        until = λ h' h''. ground arith;
        answered = λ a h'. sym (some_inj.0 h');
        drained = λ h'. (c, ch);
        stopped = λ a h' h''. (c, ch);
      })
  receive_one-Sound start services r r' (e ∷ rest) closed none sound ch c ret h =
      let empty = sound.until ret refl in
      subst (Sound start services) (some_inj.0 h) (record {
        all_there = sound.all_there;
        none_runs = sound.none_runs;
        accounted =
            sound.accounted
            ∙ ap (λ l. r.errors ++ l) ch
            ∙ sym (append_assoc r.errors (e ∷ []) rest);
        until = λ h' h''. ground arith;
        answered = λ a h'. sym (some_inj.0 h') ∙ rw empty refl;
        drained = λ h'. ground arith;
        stopped = λ a h' h''. ground arith;
      })
  receive_one-Sound stop services r r' (e ∷ rest) closed none sound ch c ret h =
      subst (Sound stop services) (some_inj.0 h) (record {
        all_there = sound.all_there;
        none_runs = sound.none_runs;
        accounted =
            sound.accounted
            ∙ ap (λ l. r.errors ++ l) ch
            ∙ sym (append_assoc r.errors (e ∷ []) rest);
        until = λ h' h''. ground arith;
        answered = λ a h'. ground arith;
        drained = λ h'. ground arith;
        stopped = λ a h' h''. ground arith;
      })

  step-Sound :
      (m : Method) (services : List Svc) (e : Event) (r r' : Run Svc)
      → Sound m services r
      → step m e r ≡ some r'
      → Sound m services r'
  unfolding step
  step-Sound m services (end_at k answer) r r' sound h =
      end_one-Sound m services k answer r r' (pick k r.running) sound refl h
  step-Sound m services close r r' sound h =
      close_channel-Sound m services r r' r.running r.closed sound refl refl h
  step-Sound m services receive r r' sound h =
      receive_one-Sound m services r r' r.channel r.closed r.returned sound refl refl refl h

  -- The first step of a run, and the rest of it.
  pub run-cons :
      (m : Method) (e : Event) (es : List Event) (r r' : Run Svc)
      → run m (e ∷ es) r ≡ some r'
      → (r1 : Run Svc) × (step m e r ≡ some r1) × (run m es r1 ≡ some r')
  unfolding run
  run-cons m e es r r' h = elim (Option-cases (step m e r)) [
    | inl f ↦ ground arith
    | inr (r1, f) ↦ (r1, f, ground arith)
  ]

  pub run-Sound :
      (m : Method) (services : List Svc) (es : List Event) (r r' : Run Svc)
      → Sound m services r
      → run m es r ≡ some r'
      → Sound m services r'
  unfolding run
  run-Sound m services [] r r' sound h = subst (Sound m services) (some_inj.0 h) sound
  run-Sound m services (e ∷ es) r r' sound h =
      let (r1, f, rest) = run-cons m e es r r' h in
      run-Sound m services es r1 r' (step-Sound m services e r r1 sound f) rest
