-- ===== src/Logger/Tests.antt =====
-- Runs of the logger's setup (internal/logger/logger.go).
use order_flow.Prelude.{◌≡◌, refl, Option, none, some, [], ◌∷◌, ℕ, List, true, if◌then◌else◌}
use order_flow.Strings.{one_of, to_lower, eqb_codes}
use order_flow.Logger.{text_formatter, json_formatter, new, default}

-- Levels by number, of which two names are known.
abbrev parse : List ℕ → Option ℕ
parse name =
    if one_of ("info" ∷ []) name
    then some 4
    else (if one_of ("debug" ∷ []) name then some 5 else none)

by_default :
    default parse 4
    ≡ record { level = 4; formatter = json_formatter "2006-01-02 15:04:05"; warned_of = none }
unfolding default new one_of to_lower eqb_codes
by_default = refl

invalid_level :
    new parse 4 (record { level = "loud"; format = "TEXT" })
    ≡ record { level = 4; formatter = text_formatter true; warned_of = some "loud" }
unfolding new one_of to_lower eqb_codes
invalid_level = refl
