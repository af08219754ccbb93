-- ===== src/Errors/Wrapping.antt =====
-- What layers of `Wrap` do to an error (internal/errors/errors.go).
use order_flow.Prelude.{
  ◌≡◌, refl, Option, none, some, List, [], ◌∷◌, String, arith, Bool, true, false,
}
use order_flow.Strings.{get_or}
use order_flow.Errors.{
  ErrorType, AppInfo, Message, GoError, plain, app, app_caused, annotated, get_default_http_status,
  wrap, wrap_with_code,
}

-- One call of `Wrap` (no code) or `WrapWithCode` (a code) by a layer of the program.
pub record Layer : Type 0 where
  pub type : ErrorType
  pub message : Message
  pub code : Option String

wrap_by : Layer → Option GoError → Option GoError
wrap_by l e = elim l.code [
  | none ↦ wrap e l.type l.message
  | some c ↦ wrap_with_code e l.type l.message c
]

-- The error after each layer in turn has wrapped it, the first of the list first.
unfoldable pub wrap_all : List Layer → Option GoError → Option GoError
unfolding wrap_by
wrap_all [] e = e
wrap_all (l ∷ ls) e = wrap_all ls (wrap_by l e)

-- An application error without or with a cause.
abbrev pub is_app : GoError → Bool
is_app (plain m) = false
is_app (app a) = true
is_app (app_caused a e) = true
is_app (annotated m e) = false

wrap_by-app : (l : Layer) (e : GoError) → is_app e ≡ true → wrap_by l (some e) ≡ some e
unfolding wrap_by wrap wrap_with_code
wrap_by-app l (app a) h = ground arith
wrap_by-app l (app_caused a e) h = ground arith
wrap_by-app l (plain m) h = cc
wrap_by-app l (annotated m e) h = cc

wrap_all-app : (ls : List Layer) (e : GoError) → is_app e ≡ true → wrap_all ls (some e) ≡ some e
unfolding wrap_all
wrap_all-app [] e h = refl
wrap_all-app (l ∷ ls) e h = rw (wrap_by-app l e h) (wrap_all-app ls e h)

-- The application error that the layer by itself makes of a cause.
unfoldable pub layer_info : Layer → AppInfo
layer_info l = record {
  type = l.type;
  message = l.message;
  code = get_or l.code "";
  details = "";
  http_status = get_default_http_status l.type;
}

wrap_by-foreign :
    (l : Layer) (e : GoError)
    → is_app e ≡ false
    → wrap_by l (some e) ≡ some (app_caused (layer_info l) e)
unfolding wrap_by wrap wrap_with_code layer_info
wrap_by-foreign l (app a) h = cc
wrap_by-foreign l (app_caused a e) h = cc
wrap_by-foreign l (plain m) h = ground arith
wrap_by-foreign l (annotated m e) h = ground arith

-- However many layers wrap an error that is none of the application's, only the innermost of them
-- shows: the result is the application error with that layer's type, message and code and the status
-- of its type, and the error itself is the cause.
wrap_all-foreign :
    (l : Layer) (ls : List Layer) (e : GoError)
    → is_app e ≡ false
    → wrap_all (l ∷ ls) (some e) ≡ some (app_caused (layer_info l) e)
unfolding wrap_all
wrap_all-foreign l ls e h =
    rw (wrap_by-foreign l e h) (wrap_all-app ls (app_caused (layer_info l) e) refl)
