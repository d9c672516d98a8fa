-- ===== src/Pipeline/Ema.antt =====
-- `CascadedEMA` of src/controller_pipeline.hpp.
pub mod Steady
use imx8mp_pipe_line_setup.Prelude.{ℕ, Bool, List, [], ◌∷◌, map, replicate}
use imx8mp_pipe_line_setup.Double.{Double, Libm}
use imx8mp_pipe_line_setup.Pipeline.Angles.{pi}

-- One stage: its `alpha_` and its `y_`, one value for each dimension.
pub record Stage (W : Type 0) : Type 0 where
  pub alpha : W
  pub y : List W

-- The stages in the order of the cascade.
abbrev pub Ema : Type 0 → Type 0
Ema W = List (Stage W)

module _ {W : Type 0} ⦃d : Double W⦄ where
  -- The loop over the dimensions: `y[d] += alpha * (s[d] - y[d])`. Both have `dim_` values.
  pub smooth : W → List W → List W → List W
  smooth alpha [] s = []
  smooth alpha (y ∷ ys) [] = []
  smooth alpha (y ∷ ys) (x ∷ xs) = d.add y (d.mul alpha (d.sub x y)) ∷ smooth alpha ys xs

  abbrev pub reset_stage : List W → Stage W → Stage W
  reset_stage x0 stage = record stage { y = x0 }

  unfoldable pub reset : List W → Ema W → Ema W
  reset x0 [] = []
  reset x0 (stage ∷ stages) = reset_stage x0 stage ∷ reset x0 stages

  -- The filtered vector, and the stages afterwards.
  unfoldable pub step : List W → Ema W → List W × Ema W
  unfolding smooth
  step s [] = (s, [])
  step s (stage ∷ stages) =
      let y' = smooth stage.alpha stage.y s in
      let (out, rest) = step y' stages in (out, record stage { y = y' } ∷ rest)

  module _ ⦃m : Libm W⦄ where
    unfoldable pub new_ema : ℕ → W → W → ℕ → Ema W
    new_ema dim ts fc stages =
        let turns = d.mul (d.mul (d.mul (d.neg (d.decimal 2 0)) pi) fc) ts in
        let a = d.sub (d.decimal 1 0) (m.exp turns) in
        replicate stages (record { alpha = a; y = replicate dim (d.decimal 0 0) })
