-- ===== src/Logger.antt =====
-- The logger of internal/logger/logger.go, as far as its configuration decides it. The levels and their
-- names are those of the logging package, a parameter.
mod Tests
use order_flow.Prelude.{Bool, true, Option, none, some, [], ◌∷◌, ℕ, List, if◌then◌else◌, String}
use order_flow.Strings.{codes, to_lower, one_of}
use order_flow.Config.{LoggerConfig}

pub data Formatter : Type 0 where
  text_formatter : (full_timestamp : Bool) → Formatter
  json_formatter : (timestamp_format : String) → Formatter

-- A logger, with the invalid level that it has warned of.
pub record Logger (Level : Type 0) : Type 0 where
  pub level : Level
  pub formatter : Formatter
  pub warned_of : Option String

module _ {Level : Type 0} (parse_level : List ℕ → Option Level) (info_level : Level) where
  -- `New`
  unfoldable pub new : LoggerConfig → Logger Level
  new config =
      let parsed = parse_level (to_lower (codes config.level)) in
      record {
        level = elim parsed [ none ↦ info_level | some level ↦ level ];
        formatter =
            if one_of ("text" ∷ []) (to_lower (codes config.format))
            then text_formatter true
            else json_formatter "2006-01-02 15:04:05";
        warned_of = elim parsed [ none ↦ some config.level | some level ↦ none ];
      }

  -- `Default`
  unfoldable pub default : Logger Level
  default = new (record { level = "info"; format = "json" })
