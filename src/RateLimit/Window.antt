-- ===== src/RateLimit/Window.antt =====
-- FixedWindow of internal/ratelimit/ratelimit.go. A call's clock readings are arguments: `created` is
-- the one that getOrCreateWindow makes for a new window.
use order_flow.Prelude.{
  Bool, true, false, Option, none, some, List, [], ◌∷◌, ℤ, pos, leb_ℤ, ltb_ℤ, succ_int,
  if◌then◌else◌, Time, Duration, zero_time, sub_time, add_time, truncate, String, Dict, lookup,
  insert,
}
use order_flow.Errors.{GoError}
use order_flow.RateLimit.{Config, Stats, Answer, Waiting, admitted, cancelled, asleep}

-- `window`
pub record Window : Type 0 where
  pub count : ℤ
  pub start_time : Time
  pub allowed : ℤ
  pub denied : ℤ

pub record FixedWindow : Type 0 where
  pub config : Config
  pub windows : Dict Window

abbrev pub new_fixed_window : Config → FixedWindow
new_fixed_window config = record { config = config; windows = [] }

unfoldable pub get_or_create_window : Duration → Option Window → Time → Window
get_or_create_window w (some win) created = win
get_or_create_window w none created = record {
  count = pos 0;
  start_time = truncate created w;
  allowed = pos 0;
  denied = pos 0;
}

-- The window after it was reset, if it is over.
unfoldable pub roll : Duration → Window → Time → Window
roll w win now =
    if leb_ℤ w (sub_time now win.start_time)
    then record win { count = pos 0; start_time = truncate now w }
    else win

unfoldable pub admits : Config → Window → Bool
admits config win = ltb_ℤ win.count config.requests

abbrev pub count_one : Bool → Window → Window
count_one true win = record win { count = succ_int win.count; allowed = succ_int win.allowed }
count_one false win = record win { denied = succ_int win.denied }

-- The window of a key that a call of Allow finds, after it was rolled.
unfoldable pub current : FixedWindow → String → Time → Time → Window
unfolding get_or_create_window roll
current fw key created now =
    roll fw.config.window (get_or_create_window fw.config.window (lookup key fw.windows) created)
      now

unfoldable pub allow : FixedWindow → String → Time → Time → Answer FixedWindow
unfolding admits
allow fw key created now =
    let win = current fw key created now in
    let allowed = admits fw.config win in
    record {
      allowed = allowed;
      error = none;
      limiter = record fw { windows = insert key (count_one allowed win) fw.windows };
    }

abbrev pub restarted : Duration → Time → Option Window → Dict Window → String → Dict Window
restarted w now none windows key = windows
restarted w now (some win) windows key =
    insert key
      (record { count = pos 0; start_time = truncate now w; allowed = pos 0; denied = pos 0 })
      windows

unfoldable pub reset : FixedWindow → String → Time → FixedWindow
reset fw key now = record fw {
  windows = restarted fw.config.window now (lookup key fw.windows) fw.windows key;
}

abbrev pub window_stats : Duration → Option Window → Stats
window_stats w none = record { allowed = pos 0; denied = pos 0; reset_time = zero_time }
window_stats w (some win) = record {
  allowed = win.allowed;
  denied = win.denied;
  reset_time = add_time win.start_time w;
}

unfoldable pub stats : FixedWindow → String → Stats
stats fw key = window_stats fw.config.window (lookup key fw.windows)

-- The time that Wait sleeps: until the window of the clock's reading ends.
unfoldable pub wait_time : Duration → Time → Duration
wait_time w now = sub_time (add_time (truncate now w) w) now

-- One pass of Wait's loop: its call of Allow, the reading that the sleep is computed from, and the
-- context's error if it ends first.
pub record Round : Type 0 where
  pub created : Time
  pub now : Time
  pub asked : Time
  pub ended : Option GoError

abbrev pub slept_or_ended : Option GoError → Waiting → Waiting
slept_or_ended none rest = rest
slept_or_ended (some e) rest = cancelled e

-- Wait over the passes that it makes (Allow returns no error), with the durations that it asks to sleep.
unfoldable pub wait : FixedWindow → String → List Round → Waiting × List Duration
wait fw key [] = (asleep, [])
wait fw key (r ∷ rounds) =
    let answer = allow fw key r.created r.now in
    let (rest, sleeps) = wait answer.limiter key rounds in
    if answer.allowed then (admitted, []) else (
      slept_or_ended r.ended rest,
      wait_time fw.config.window r.asked ∷ (elim r.ended [ none ↦ sleeps | some e ↦ [] ]),
    )
