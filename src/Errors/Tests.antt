-- ===== src/Errors/Tests.antt =====
-- Runs of the application errors (internal/errors/errors.go), and their theorem at a concrete input.
use order_flow.Prelude.{◌≡◌, refl, none, some, [], ◌∷◌}
use order_flow.Errors.{GoError, plain, app_caused, str, database, internal, error_text}
use order_flow.Errors.Wrapping.{Layer, layer_info}

abbrev cause : GoError
cause = plain (str "connection refused" ∷ [])

abbrev inner : Layer
inner = record { type = database; message = str "save" ∷ []; code = some "DB" }

abbrev outer : Layer
outer = record { type = internal; message = str "handle" ∷ []; code = none }

text :
    error_text (app_caused (layer_info inner) cause)
    ≡ str "database"
      ∷ str ": "
      ∷ str "save"
      ∷ str " (caused by: "
      ∷ str "connection refused"
      ∷ str ")"
      ∷ []
unfolding error_text layer_info
text = refl
