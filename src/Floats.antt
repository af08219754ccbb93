-- ===== src/Floats.antt =====
-- Go's float64, which the language here does not have: the type and its operations are a parameter of
-- the definitions that compute with floats, and a theorem names the laws that it uses.
use order_flow.Prelude.{Bool, ℤ}

pub record Floats : Type 1 where
  pub Float : Type 0
  -- the conversions `float64(n)` and `int64(x)`
  pub of_int : ℤ → Float
  pub to_int : Float → ℤ
  pub add : Float → Float → Float
  pub sub : Float → Float → Float
  pub mul : Float → Float → Float
  pub div : Float → Float → Float
  -- `math.Pow`
  pub pow : Float → Float → Float
  -- `a < b` and `a <= b`, both false where one of them is no number
  pub lt : Float → Float → Bool
  pub le : Float → Float → Bool
