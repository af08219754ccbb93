-- ===== src/Lifecycle/Outcome.antt =====
-- What Start and Stop of internal/lifecycle/lifecycle.go return, under any interleaving of the
-- goroutines with the caller.
use mathlib.Core.List.{Perm}
use order_flow.Prelude.{◌≡◌, refl, sym, ap, ◌∙◌, Option, none, some, List, [], ◌∷◌, ◌++◌, map}
use order_flow.Errors.{GoError}
use order_flow.Lifecycle.{Manager, Method, stop, Run, Event, first, begin, run}
use order_flow.Lifecycle.Sound.{errors_of, begin-Sound, run-Sound}

first-append : (xs ys : List GoError) → (xs ≡ [] → ys ≡ []) → first (xs ++ ys) ≡ first xs
first-append [] ys h = rw (h refl) refl
first-append (e ∷ xs) ys h = refl

module _ {Svc : Type 0} where
  -- Whatever the interleaving, at each point of a run of Start or of Stop: the services whose goroutine
  -- has ended and those that run are the registered ones; and where the method has returned, its result
  -- is the first error that a service answered, or nil if there is none. A Stop that has returned has
  -- waited for all services, and so has a Start that returned nil: all have answered nil.
  pub run-returned :
      (m : Method) (g : Manager Svc) (es : List Event) (r : Run Svc)
      → run m es (begin g) ≡ some r
      → Perm g.services (map (λ x. x.0) r.ended ++ r.running)
        × ((a : Option GoError)
            → r.returned ≡ some a
            → (a ≡ first (errors_of r.ended))
              × (m ≡ stop → r.running ≡ [])
              × (a ≡ none → r.running ≡ []))
  run-returned m g es r h =
      let sound = run-Sound m g.services es (begin g) r (begin-Sound m g) h in
      (
        sound.all_there,
        λ a ret.
            let nothing_left : r.errors ≡ [] → r.channel ≡ [] = λ none_taken.
              (sound.drained (ret ∙ ap some (sound.answered a ret ∙ ap first none_taken))).1 in
            (
              sound.answered a ret
                  ∙ sym (first-append r.errors r.channel nothing_left)
                  ∙ ap first (sym sound.accounted),
              λ stops. sound.none_runs (sound.stopped a ret stops).0,
              λ no_error. sound.none_runs (sound.drained (ret ∙ ap some no_error)).0,
            ),
      )
