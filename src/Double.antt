-- ===== src/Double.antt =====
-- What the code does with a `double`, and the parts of the C library that it calls on one. A value of
-- the type `W` is a `double`; a `float` is a `double` that `to_float` has rounded.
pub mod Micro
pub mod Printing
use imx8mp_pipe_line_setup.Prelude.{ℕ, ◌≡◌, Bool, true, false, not, Bytes}
use imx8mp_pipe_line_setup.Prelude.Int.{ℤ}

pub record Double (W : Type 0) : Type 0 where
  -- the literal m / 10 ^ e
  pub decimal : ℕ → ℕ → W
  -- `DBL_MAX`
  pub dbl_max : W
  pub neg : W → W
  pub add : W → W → W
  pub sub : W → W → W
  pub mul : W → W → W
  pub div : W → W → W
  -- `<` and `<=`, which are false where an operand is NaN
  pub lt : W → W → Bool
  pub le : W → W → Bool
  pub floor : W → W
  pub to_float : W → W
  pub of_int : ℤ → W
  -- `static_cast<int32_t>`
  pub to_int32 : W → ℤ

-- The functions of <cmath>.
pub record Libm (W : Type 0) : Type 0 where
  pub sqrt : W → W
  pub exp : W → W
  pub cos : W → W
  pub sin : W → W
  pub atan2 : W → W → W

-- `strtod` on a text, and the text that `printf` makes by "%.<precision>f".
pub record Stdio (W : Type 0) : Type 0 where
  pub strtod : Bytes → W
  pub fixed : ℕ → W → Bytes

-- NaN is the value that is not `<=` itself.
abbrev pub IsNumber : {W : Type 0} ⦃d : Double W⦄ → W → Type 0
IsNumber ⦃d⦄ x = d.le x x ≡ true

-- `y` is not below `x`.
infix 4 ◌≼◌
abbrev pub ◌≼◌ : {W : Type 0} ⦃d : Double W⦄ → W → W → Type 0
◌≼◌ ⦃d⦄ x y = d.lt y x ≡ false

-- IEEE 754's order: `<` relates numbers only, and is a strict weak order on them. A value less itself
-- is zero or NaN, and so never above a literal; subtraction is monotone.
pub record IsOrdered (W : Type 0) ⦃d : Double W⦄ : Type 0 where
  pub lt_asymm : (x y : W) → d.lt x y ≡ true → x ≼ y
  pub number_of_lt : (x y : W) → d.lt x y ≡ true → IsNumber x × IsNumber y
  pub le_trans : (x y z : W) → IsNumber y → x ≼ y → y ≼ z → x ≼ z
  pub not_lt_of_le : (x y : W) → d.le x y ≡ true → x ≼ y
  pub sub_self : (x : W) (m e : ℕ) → d.sub x x ≼ d.decimal m e
  pub sub_mono : (w x y : W) → x ≼ y → d.sub w y ≼ d.sub w x
