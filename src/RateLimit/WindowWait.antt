-- ===== src/RateLimit/WindowWait.antt =====
-- FixedWindow.Wait of internal/ratelimit/ratelimit.go ends at the next window.
use native.Mathlib.Nat.{mod-add-div, mul-le-mul_left, le-div_iff_mul-le, div-mul-le_self, mod-lt}
use order_flow.Prelude.{
  Bool, true, false, ℕ, suc, ◌+◌, ◌*◌, ◌/◌, ◌≤◌, ◌≡◌, refl, sym, subst, ap, ◌∙◌, inl, inr, Option,
  none, some, List, ◌∷◌, pos, leb_ℤ, Time, sub_time, add_time, truncate, max_int, String, lookup,
  lookup-insert, eq_iff, arith, Bool-cases, length,
}
use order_flow.RateLimit.{admitted}
use order_flow.RateLimit.Window.{
  Window, FixedWindow, get_or_create_window, roll, admits, count_one, current, allow, wait_time,
  Round, wait,
}

truncate-eq : (t w : ℕ) → truncate t (pos (suc w)) ≡ suc w * (t / suc w)
unfolding truncate
truncate-eq t w = omega (arith, mod-add-div t (suc w))

truncate_mono : (t u w : ℕ) → t ≤ u → truncate t (pos (suc w)) ≤ truncate u (pos (suc w))
truncate_mono t u w h =
    let m = suc w in
    let quotients =
      (le-div_iff_mul-le {k = m} {x = t / m} {y = u} (omega arith)).1
        (omega (arith, div-mul-le_self t m, h)) in
    omega (arith, truncate-eq t w, truncate-eq u w, mul-le-mul_left m quotients)

-- The key's window, if there is one, has started by a time.
abbrev pub StartedBy : Time → Option Window → Type 0
StartedBy t none = Unit
StartedBy t (some win) = win.start_time ≤ t

create-StartedBy :
    (o : Option Window) (created now w : ℕ)
    → created ≤ now
    → StartedBy (truncate now (pos (suc w))) o
    → (get_or_create_window (pos (suc w)) o created).start_time ≤ truncate now (pos (suc w))
unfolding get_or_create_window
create-StartedBy none created now w le by = truncate_mono created now w le
create-StartedBy (some win) created now w le by = by

roll-start :
    (win : Window) (now w : ℕ)
    → win.start_time ≤ truncate now (pos (suc w))
    → (roll (pos (suc w)) win now).start_time ≤ truncate now (pos (suc w))
unfolding roll
roll-start win now w h = elim (Bool-cases (leb_ℤ (pos (suc w)) (sub_time now win.start_time))) [
  | inl over ↦ rw over (omega arith)
  | inr on ↦ rw on h
]

current-start :
    (fw : FixedWindow) (key : String) (created now w : ℕ)
    → fw.config.window ≡ pos (suc w)
    → created ≤ now
    → StartedBy (truncate now (pos (suc w))) (lookup key fw.windows)
    → (current fw key created now).start_time ≤ truncate now (pos (suc w))
unfolding current
current-start fw key created now w eq le by =
    let o = lookup key fw.windows in
    rw eq (
      roll-start (get_or_create_window (pos (suc w)) o created) now w
        (create-StartedBy o created now w le by))

count_one-start : (b : Bool) (win : Window) → (count_one b win).start_time ≡ win.start_time
count_one-start true win = refl
count_one-start false win = refl

-- A call leaves a window that has started by its reading of the clock.
allow-StartedBy :
    (fw : FixedWindow) (key : String) (created now w : ℕ)
    → fw.config.window ≡ pos (suc w)
    → created ≤ now
    → StartedBy (truncate now (pos (suc w))) (lookup key fw.windows)
    → (win : Window) × (lookup key (allow fw key created now).limiter.windows ≡ some win)
      × (win.start_time ≤ truncate now (pos (suc w)))
unfolding allow
allow-StartedBy fw key created now w eq le by =
    let win = current fw key created now in
    let b = admits fw.config win in
    (
      count_one b win,
      ground (arith, lookup-insert key key (count_one b win) fw.windows, eq_iff key key),
      subst (λ t. t ≤ truncate now (pos (suc w))) (sym (count_one-start b win))
          (current-start fw key created now w eq le by),
    )

-- A call is let through once the key's window is over.
allow-over :
    (fw : FixedWindow) (key : String) (created now w r : ℕ) (win : Window)
    → fw.config.window ≡ pos (suc w)
    → fw.config.requests ≡ pos (suc r)
    → suc w ≤ max_int
    → lookup key fw.windows ≡ some win
    → win.start_time + suc w ≤ now
    → (allow fw key created now).allowed ≡ true
unfolding allow admits current get_or_create_window roll sub_time
allow-over fw key created now w r win eq req fits at over = ground arith

config-allow :
    (fw : FixedWindow) (key : String) (created now : Time)
    → (allow fw key created now).limiter.config ≡ fw.config
unfolding allow
config-allow fw key created now = refl

next_window :
    (asked later w : ℕ)
    → suc w ≤ max_int
    → add_time asked (wait_time (pos (suc w)) asked) ≤ later
    → truncate asked (pos (suc w)) + suc w ≤ later
unfolding wait_time sub_time truncate
next_window asked later w fits h =
    let below = mod-lt asked {m = suc w} (omega arith) in ground (arith, below)

-- Wait lets a key through after at most one sleep: where no other caller uses the key, whose
-- window, if it has one, has started, the context does not end, and the clock does not run
-- backwards, the second pass succeeds once the time that Wait asks to sleep has passed. The limit
-- is positive, and so is the window, which is 64-bit.
pub wait-admitted :
    (fw : FixedWindow) (key : String) (r1 r2 : Round) (rounds : List Round) (w r : ℕ)
    → fw.config.window ≡ pos (suc w)
    → fw.config.requests ≡ pos (suc r)
    → suc w ≤ max_int
    → r1.created ≤ r1.now
    → r1.now ≤ r1.asked
    → r1.ended ≡ none
    → StartedBy (truncate r1.now (pos (suc w))) (lookup key fw.windows)
    → add_time r1.asked (wait_time (pos (suc w)) r1.asked) ≤ r2.now
    → ((wait fw key (r1 ∷ r2 ∷ rounds)).0 ≡ admitted)
      × (length (wait fw key (r1 ∷ r2 ∷ rounds)).1 ≤ 1)
unfolding wait
wait-admitted fw key r1 r2 rounds w r eq req fits created asked live by slept =
    let first = allow fw key r1.created r1.now in
    let (win, at, start) = allow-StartedBy fw key r1.created r1.now w eq created by in
    let kept = config-allow fw key r1.created r1.now in
    let over = next_window r1.asked r2.now w fits slept in
    let past = truncate_mono r1.now r1.asked w asked in
    let second =
      allow-over first.limiter key r2.created r2.now w r win (ap (λ c. c.window) kept ∙ eq)
        (ap (λ c. c.requests) kept ∙ req) fits at (omega (arith, start, over, past)) in
    elim (Bool-cases first.allowed) [
      | inl at_once ↦ rw at_once (refl, omega arith)
      | inr denied ↦ rw (denied, live, second) (refl, omega arith)
    ]
