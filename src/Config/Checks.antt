-- ===== src/Config/Checks.antt =====
-- A list of checks, each a test for a fault with its message (internal/config/validator.go): the
-- messages of the faults that are there, joined.
use order_flow.Prelude.{
  ◌≡◌, ◌↔◌, refl, Bool, true, false, Option, none, some, List, [], ◌∷◌, ◌++◌, arith, All,
}
use order_flow.Errors.{Message, str}

pub record Check : Type 0 where
  pub fault : Bool
  pub message : Message

-- `if fault { errors = append(errors, message) }` for each check in turn
unfoldable pub collect : List Check → List Message
collect [] = []
collect (c ∷ cs) = let rest = collect cs in elim c.fault [ true ↦ c.message ∷ rest | false ↦ rest ]

-- `strings.Join(errors, "; ")`
join_rest : List Message → Message
join_rest [] = []
join_rest (m ∷ ms) = str "; " ∷ (m ++ join_rest ms)

join : List Message → Message
join [] = []
join (m ∷ ms) = m ++ join_rest ms

-- `if len(errors) > 0 { return fmt.Errorf(...) }`; the joined text as it is, before Errorf reads it as
-- a format.
unfoldable pub report : List Message → Option Message
unfolding join join_rest
report [] = none
report (m ∷ ms) = some (join (m ∷ ms))

unfoldable pub run_checks : List Check → Option Message
unfolding collect report
run_checks cs = report (collect cs)

abbrev pub IsPassed : Check → Type 0
IsPassed c = c.fault ≡ false

collect-nil : (cs : List Check) → collect cs ≡ [] → All IsPassed cs
unfolding collect
collect-nil [] h = tt
collect-nil (c ∷ cs) h = ground (arith, collect-nil cs)

passed-collect : (cs : List Check) → All IsPassed cs → collect cs ≡ []
unfolding collect
passed-collect [] h = refl
passed-collect (c ∷ cs) (h, hs) = ground (arith, passed-collect cs hs)

report-none : (ms : List Message) → report ms ≡ none → ms ≡ []
unfolding report
report-none [] h = refl
report-none (m ∷ ms) h = cc

-- Nothing is reported exactly when every check is passed.
pub run_checks-none : (cs : List Check) → (run_checks cs ≡ none) ↔ All IsPassed cs
unfolding run_checks
run_checks-none cs =
    (λ h. collect-nil cs (report-none (collect cs) h), λ h. rw (passed-collect cs h))
