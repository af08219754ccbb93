-- ===== src/RateLimit/WindowLimits.antt =====
-- How many calls FixedWindow.Allow (internal/ratelimit/ratelimit.go) lets through.
use Prim.Native.Nat.{min}
use order_flow.Prelude.{
  ℕ, suc, ◌-◌, ◌≤◌, ◌≡◌, inl, inr, refl, sym, subst, ap, ◌∙◌, false, Option, none, some, List, [],
  ◌∷◌, pos, leb_ℤ, ltb, if◌then◌else◌, ◌&&◌, Time, Duration, sub_time, truncate, max_int, String,
  str_eq, lookup, lookup-insert, eq_iff, arith, Bool-cases, All,
}
use order_flow.RateLimit.Window.{
  Window, FixedWindow, get_or_create_window, roll, admits, count_one, current, allow,
}

-- A call of Allow: the key and its two clock readings.
pub record Call : Type 0 where
  pub key : String
  pub created : Time
  pub now : Time

-- How many calls of a key are let through, and how many there are.
unfoldable pub admitted_calls : String → FixedWindow → List Call → ℕ
admitted_calls key fw [] = 0
admitted_calls key fw (c ∷ calls) =
    let answer = allow fw c.key c.created c.now in
    let rest = admitted_calls key answer.limiter calls in
    if str_eq c.key key && answer.allowed then suc rest else rest

unfoldable pub calls_of : String → List Call → ℕ
calls_of key [] = 0
calls_of key (c ∷ calls) =
    let rest = calls_of key calls in if str_eq c.key key then suc rest else rest

-- A call both of whose readings lie in the window that starts at a time.
abbrev pub In : Duration → Time → Call → Type 0
In w start c = (truncate c.created w ≡ start) × (truncate c.now w ≡ start)

sub_time-in :
    (t u w : ℕ)
    → suc w ≤ max_int
    → truncate t (pos (suc w)) ≡ u
    → leb_ℤ (pos (suc w)) (sub_time t u) ≡ false
unfolding truncate sub_time
sub_time-in t u w le eq = ground arith

-- A key that so many calls were let through for in the window that starts at `start`.
abbrev At : Time → ℕ → Option Window → Type 0
At start c none = c ≡ 0
At start c (some win) = (win.start_time ≡ start) × (win.count ≡ pos c)

create-At :
    (o : Option Window) (created start w c : ℕ)
    → truncate created (pos (suc w)) ≡ start
    → At start c o
    → At start c (some (get_or_create_window (pos (suc w)) o created))
unfolding get_or_create_window
create-At none created start w c cr at = (cr, ap pos (sym at))
create-At (some win) created start w c cr at = at

roll-At :
    (win : Window) (now start w : ℕ)
    → suc w ≤ max_int
    → truncate now (pos (suc w)) ≡ start
    → win.start_time ≡ start
    → roll (pos (suc w)) win now ≡ win
unfolding roll
roll-At win now start w le eq st = rw (sub_time-in now win.start_time w le (eq ∙ sym st)) refl

current-At :
    (fw : FixedWindow) (key : String) (created now start w c : ℕ)
    → fw.config.window ≡ pos (suc w)
    → suc w ≤ max_int
    → truncate created (pos (suc w)) ≡ start
    → truncate now (pos (suc w)) ≡ start
    → At start c (lookup key fw.windows)
    → At start c (some (current fw key created now))
unfolding current
current-At fw key created now start w c eq le cr nw at =
    let at' = create-At (lookup key fw.windows) created start w c cr at in
    let kept =
      roll-At (get_or_create_window (pos (suc w)) (lookup key fw.windows) created) now start w le nw
        at'.0 in
    subst
      (λ d. At start c (some (roll d (get_or_create_window d (lookup key fw.windows) created) now)))
      (sym eq) (subst (λ win. At start c (some win)) (sym kept) at')

-- A call in the window is let through exactly when the key is below the limit, and then counts.
allow-At :
    (fw : FixedWindow) (key : String) (created now start w c r : ℕ)
    → fw.config.window ≡ pos (suc w)
    → fw.config.requests ≡ pos r
    → suc w ≤ max_int
    → r ≤ max_int
    → truncate created (pos (suc w)) ≡ start
    → truncate now (pos (suc w)) ≡ start
    → At start c (lookup key fw.windows)
    → ((allow fw key created now).allowed ≡ ltb c r)
      × At start
          (if ltb c r then suc c else c)
          (lookup key (allow fw key created now).limiter.windows)
unfolding allow admits
allow-At fw key created now start w c r eq req le rle cr nw at =
    let at' = current-At fw key created now start w c eq le cr nw at in
    ground (
      arith,
      lookup-insert key key
          (count_one (admits fw.config (current fw key created now)) (current fw key created now))
          fw.windows,
      eq_iff key key,
    )

-- A call touches the window of no other key.
pub lookup-allow_other :
    (fw : FixedWindow) (key other : String) (created now : Time)
    → str_eq other key ≡ false
    → lookup key (allow fw other created now).limiter.windows ≡ lookup key fw.windows
unfolding allow
lookup-allow_other fw key other created now h = ground (
  arith,
  lookup-insert other key
      (count_one (admits fw.config (current fw other created now)) (current fw other created now))
      fw.windows,
)

config-allow :
    (fw : FixedWindow) (key : String) (created now : Time)
    → (allow fw key created now).limiter.config ≡ fw.config
unfolding allow
config-allow fw key created now = refl

admitted_calls-At :
    (key : String) (fw : FixedWindow) (calls : List Call) (start w c r : ℕ)
    → fw.config.window ≡ pos (suc w)
    → fw.config.requests ≡ pos r
    → suc w ≤ max_int
    → r ≤ max_int
    → c ≤ r
    → At start c (lookup key fw.windows)
    → All (In (pos (suc w)) start) calls
    → admitted_calls key fw calls ≡ min (r - c) (calls_of key calls)
unfolding admitted_calls calls_of
admitted_calls-At key fw [] start w c r eq req le rle cle at ins = omega arith
admitted_calls-At key fw (x ∷ calls) start w c r eq req le rle cle at ((cr, nw), ins) =
    let after = (allow fw x.key x.created x.now).limiter in
    let same = config-allow fw x.key x.created x.now in
    let again = λ (d : ℕ) (dle : d ≤ r) (at' : At start d (lookup key after.windows)).
      admitted_calls-At key after calls start w d r (ap (λ g. g.window) same ∙ eq)
        (ap (λ g. g.requests) same ∙ req) le rle dle at' ins in
    elim (Bool-cases (str_eq x.key key)) [
      | inl h ↦
          let e = (eq_iff x.key key).0 h in
          let own =
            allow-At fw x.key x.created x.now start w c r eq req le rle cr nw
              (subst (λ k. At start c (lookup k fw.windows)) (sym e) at) in
          let at' =
            subst (λ k. At start (if ltb c r then suc c else c) (lookup k after.windows)) e own.1 in
          ground (arith, own.0, again (if ltb c r then suc c else c) (ground arith) at')
      | inr h ↦
          let kept = lookup-allow_other fw key x.key x.created x.now h in
          ground (arith, again c cle (subst (At start c) (sym kept) at))
    ]

-- In one window, whatever calls of any keys come in whatever order, a key that starts with nothing has
-- as many calls let through as it makes, up to the limit and never more. The duration of the window is
-- positive, the limit is not negative, and both are 64-bit.
pub admitted_calls-limit :
    (key : String) (fw : FixedWindow) (calls : List Call) (start w r : ℕ)
    → fw.config.window ≡ pos (suc w)
    → fw.config.requests ≡ pos r
    → suc w ≤ max_int
    → r ≤ max_int
    → lookup key fw.windows ≡ none
    → All (In (pos (suc w)) start) calls
    → admitted_calls key fw calls ≡ min r (calls_of key calls)
admitted_calls-limit key fw calls start w r eq req le rle absent ins =
    admitted_calls-At key fw calls start w 0 r eq req le rle (omega arith)
      (subst (At start 0) (sym absent) refl) ins
    ∙ ap (λ m. min m (calls_of key calls)) (omega arith)
