-- ===== src/RateLimit/WindowStats.antt =====
-- The statistics of FixedWindow (internal/ratelimit/ratelimit.go) against the calls that were made.
use order_flow.Prelude.{
  subst₂, ℕ, suc, ◌+◌, ◌-◌, ◌≤◌, ◌≡◌, refl, sym, subst, inl, inr, Option, none, some, List, [], ◌∷◌,
  pos, if◌then◌else◌, Time, max_int, String, str_eq, lookup, lookup-insert, eq_iff, arith,
  Bool-cases,
}
use order_flow.RateLimit.Window.{
  Window, FixedWindow, get_or_create_window, roll, admits, count_one, current, allow, stats,
}
use order_flow.RateLimit.WindowLimits.{Call, admitted_calls, calls_of, lookup-allow_other}

-- The limiter after calls.
unfoldable pub after_calls : FixedWindow → List Call → FixedWindow
after_calls fw [] = fw
after_calls fw (c ∷ calls) = after_calls (allow fw c.key c.created c.now).limiter calls

-- A key's counters.
abbrev pub Counted : ℕ → ℕ → Option Window → Type 0
Counted a d none = (a ≡ 0) × (d ≡ 0)
Counted a d (some win) = (win.allowed ≡ pos a) × (win.denied ≡ pos d)

Counted-eq : (o : Option Window) {a a' d d' : ℕ} → a ≡ a' → d ≡ d' → Counted a d o → Counted a' d' o
Counted-eq o ea ed h = subst₂ (λ a d. Counted a d o) ea ed h

current-Counted :
    (fw : FixedWindow) (key : String) (created now : Time) (a d : ℕ)
    → Counted a d (lookup key fw.windows)
    → Counted a d (some (current fw key created now))
unfolding current get_or_create_window roll
current-Counted fw key created now a d h = ground arith

allow-Counted :
    (fw : FixedWindow) (key : String) (created now : Time) (a d : ℕ)
    → suc (a + d) ≤ max_int
    → Counted a d (lookup key fw.windows)
    → Counted
        (if (allow fw key created now).allowed then suc a else a)
        (if (allow fw key created now).allowed then d else suc d)
        (lookup key (allow fw key created now).limiter.windows)
unfolding allow
allow-Counted fw key created now a d le h = ground (
  arith,
  current-Counted fw key created now a d h,
  lookup-insert key key
      (count_one (admits fw.config (current fw key created now)) (current fw key created now))
      fw.windows,
  eq_iff key key,
)

admitted_calls-le :
    (key : String) (fw : FixedWindow) (calls : List Call)
    → admitted_calls key fw calls ≤ calls_of key calls
unfolding admitted_calls calls_of
admitted_calls-le key fw [] = omega arith
admitted_calls-le key fw (x ∷ calls) =
    ground (arith, admitted_calls-le key (allow fw x.key x.created x.now).limiter calls)

after_calls-Counted :
    (key : String) (fw : FixedWindow) (calls : List Call) (a d : ℕ)
    → a + d + calls_of key calls ≤ max_int
    → Counted a d (lookup key fw.windows)
    → Counted
        (a + admitted_calls key fw calls)
        (d + (calls_of key calls - admitted_calls key fw calls))
        (lookup key (after_calls fw calls).windows)
unfolding admitted_calls calls_of after_calls
after_calls-Counted key fw [] a d le h = ground arith
after_calls-Counted key fw (x ∷ calls) a d le h =
    let after = (allow fw x.key x.created x.now).limiter in
    let bound = admitted_calls-le key after calls in
    elim (Bool-cases (str_eq x.key key)) [
      | inr n ↦
          let kept = lookup-allow_other fw key x.key x.created x.now n in
          Counted-eq (lookup key (after_calls after calls).windows) (ground arith) (ground arith) (
            after_calls-Counted key after calls a d (ground arith)
              (subst (Counted a d) (sym kept) h))
      | inl e ↦
          let same = (eq_iff x.key key).0 e in
          let own =
            allow-Counted fw x.key x.created x.now a d (ground arith)
              (subst (λ k. Counted a d (lookup k fw.windows)) (sym same) h) in
          let at' =
            subst
              (λ k.
                Counted (if (allow fw x.key x.created x.now).allowed then suc a else a)
                  (if (allow fw x.key x.created x.now).allowed then d else suc d)
                  (lookup k after.windows))
              same own in
          Counted-eq (lookup key (after_calls after calls).windows) (ground arith) (ground arith) (
            after_calls-Counted key after calls
              (if (allow fw x.key x.created x.now).allowed then suc a else a)
              (if (allow fw x.key x.created x.now).allowed then d else suc d) (ground arith) at')
    ]

stats-Counted :
    (fw : FixedWindow) (key : String) (a d : ℕ)
    → Counted a d (lookup key fw.windows)
    → ((stats fw key).allowed ≡ pos a) × ((stats fw key).denied ≡ pos d)
unfolding stats
stats-Counted fw key a d h = ground arith

-- Whatever calls of whatever keys come at whatever times, as long as the key makes fewer than 2^63 of
-- them, a key that starts with nothing has statistics that count its calls by their results.
stats-after_calls :
    (key : String) (fw : FixedWindow) (calls : List Call)
    → calls_of key calls ≤ max_int
    → lookup key fw.windows ≡ none
    → ((stats (after_calls fw calls) key).allowed ≡ pos (admitted_calls key fw calls))
      × ((stats (after_calls fw calls) key).denied
          ≡ pos (calls_of key calls - admitted_calls key fw calls))
stats-after_calls key fw calls le absent =
    stats-Counted (after_calls fw calls) key (admitted_calls key fw calls)
      (calls_of key calls - admitted_calls key fw calls)
      (Counted-eq (lookup key (after_calls fw calls).windows) (omega arith) (omega arith) (
        after_calls-Counted key fw calls 0 0 (omega arith)
          (subst (Counted 0 0) (sym absent) (refl, refl))))
