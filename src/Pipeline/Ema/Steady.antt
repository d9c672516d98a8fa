-- ===== src/Pipeline/Ema/Steady.antt =====
-- The filter on a vector that it has been reset to.
use mathlib.Core.Path.{ap₂}
use imx8mp_pipe_line_setup.Prelude.{
  arith, suc, ℕ, ◌≡◌, refl, sym, ap, ◌∙◌, List, [], ◌∷◌, length, All,
}
use imx8mp_pipe_line_setup.Double.{Double}
use imx8mp_pipe_line_setup.Pipeline.Ema.{Ema, smooth, reset, step}

module _ {W : Type 0} ⦃d : Double W⦄ where
  -- `x` less itself is a zero that vanishes in a product and in a sum: true of a finite number other than
  -- the negative zero, for a finite `alpha`.
  abbrev pub IsSteady : W → W → Type 0
  IsSteady alpha x = d.add x (d.mul alpha (d.sub x x)) ≡ x

  smooth_steady : (alpha : W) (xs : List W) → All (IsSteady alpha) xs → smooth alpha xs xs ≡ xs
  unfolding smooth
  smooth_steady alpha [] h = refl
  smooth_steady alpha (x ∷ xs) h = ap₂ ◌∷◌ h.0 (smooth_steady alpha xs h.1)

  -- Where the values are steady under each stage, a filter that was reset to a vector gives back that
  -- vector and stays as it is, whatever its stages held before.
  pub step-reset :
      (xs : List W) (stages : Ema W)
      → All (λ stage. All (IsSteady stage.alpha) xs) stages
      → step xs (reset xs stages) ≡ (xs, reset xs stages)
  unfolding step reset
  step-reset xs [] h = refl
  step-reset xs (stage ∷ stages) h =
      let flat = smooth_steady stage.alpha xs h.0 in rw (flat, step-reset xs stages h.1)

  -- The filtered vector keeps the dimension, and the cascade its stages.
  length-smooth :
      (alpha : W) (ys xs : List W) → length ys ≡ length xs → length (smooth alpha ys xs) ≡ length xs
  unfolding smooth
  length-smooth alpha [] [] e = refl
  length-smooth alpha [] (x ∷ xs) e = absurd (omega arith)
  length-smooth alpha (y ∷ ys) [] e = absurd (omega arith)
  length-smooth alpha (y ∷ ys) (x ∷ xs) e = ap suc (length-smooth alpha ys xs (omega arith))

  pub length-step :
      (dim : ℕ) (xs : List W) (stages : Ema W)
      → length xs ≡ dim
      → All (λ stage. length stage.y ≡ dim) stages
      → (length (step xs stages).0 ≡ dim)
        × All (λ stage. length stage.y ≡ dim) (step xs stages).1
        × (length (step xs stages).1 ≡ length stages)
  unfolding step
  length-step dim xs [] e h = (e, tt, refl)
  length-step dim xs (stage ∷ stages) e h =
      let kept = length-smooth stage.alpha stage.y xs (h.0 ∙ sym e) ∙ e in
      let (out, rest, count) = length-step dim (smooth stage.alpha stage.y xs) stages kept h.1 in
      (out, (kept, rest), ap suc count)
