-- ===== src/Float.antt =====
-- What the RDS code does with a `float`: literals, the cast from an integer, `+`, `/` and
-- comparisons. The type and its operations are a parameter of the model; no law is assumed.
pub mod Whole
use mpxcast.Prelude.{ℕ, Bool}

pub record Float (F : Type 0) : Type 0 where
  -- `literal n d` is the constant that the source writes for n / d, such as 0.25f for 1 / 4.
  pub literal : ℕ → ℕ → F
  -- `(float)n`
  pub of_ℕ : ℕ → F
  pub add : F → F → F
  pub divide : F → F → F
  -- `x < y` and `x >= y`; both are false on NaN.
  pub lt : F → F → Bool
  pub ge : F → F → Bool

-- What `memset` to 0 leaves in a float.
abbrev pub float_zero : {F : Type 0} ⦃f : Float F⦄ → F
float_zero ⦃f⦄ = f.literal 0 1
