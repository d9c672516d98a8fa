-- ===== src/Motor/Same.antt =====
-- States of the motor model that behave the same from here on.
use mathlib.Core.Path.{subst}
use imx8mp_pipe_line_setup.Prelude.{
  ◌≡◌, refl, sym, ap, ◌∙◌, Bool, true, false, Option, none, some, List, [], ◌∷◌, arith,
}
use imx8mp_pipe_line_setup.Prelude.Int.{ℤ}
use imx8mp_pipe_line_setup.Double.{Double, Libm}
use imx8mp_pipe_line_setup.Pipeline.History.{History, Point, build, see_first, window_of, store}
use imx8mp_pipe_line_setup.Pipeline.History.Window.{build-eq}
use imx8mp_pipe_line_setup.Pipeline.Ema
use imx8mp_pipe_line_setup.Pipeline.Ema.{Ema, Stage}
use imx8mp_pipe_line_setup.Motor.{
  Motor, MotorOut, after_invoke, filter_prediction, tendon_of, motor_out_of, seed,
}

-- Two histories are the same from here on: they are equal, or neither has seen a sample.
pub data SameHistory {W : Type 0} : History W → History W → Type 0 where
  equal : {g h : History W} → g ≡ h → SameHistory g h
  unseen :
      {g h : History W}
      → g.seq_len ≡ h.seq_len
      → g.anchor_distance ≡ h.anchor_distance
      → g.hist ≡ h.hist
      → g.accum_dist ≡ h.accum_dist
      → g.has_first ≡ false
      → h.has_first ≡ false
      → SameHistory g h

-- The filters have the same stages, whatever these hold.
abbrev pub SameStages : {W : Type 0} → Ema W → Ema W → Type 0
SameStages [] [] = Unit
SameStages [] (t ∷ ts) = ⊥
SameStages (s ∷ ss) [] = ⊥
SameStages (s ∷ ss) (t ∷ ts) = (s.alpha ≡ t.alpha) × SameStages ss ts

-- Two states behave the same from here on.
pub record SameSession {W V : Type 0} (a b : Motor W V) : Type 0 where
  pub variables : a.variables ≡ b.variables
  pub history : SameHistory a.history b.history
  pub stages : SameStages a.lpf b.lpf
  pub initialized : a.lpf_initialized ≡ b.lpf_initialized
  pub lpf : a.lpf_initialized ≡ true → a.lpf ≡ b.lpf

module _ {W : Type 0} ⦃d : Double W⦄ where
  pub reset-SameStages :
      (x0 : List W) (a b : Ema W) → SameStages a b → Ema.reset x0 a ≡ Ema.reset x0 b
  unfolding Ema.reset
  reset-SameStages x0 [] [] s = refl
  reset-SameStages x0 [] (t ∷ ts) s = absurd s
  reset-SameStages x0 (s ∷ ss) [] h = absurd h
  reset-SameStages x0 (s ∷ ss) (t ∷ ts) h = cc (h.0, reset-SameStages x0 ss ts h.1)

  pub SameStages-refl : (a : Ema W) → SameStages a a
  SameStages-refl [] = tt
  SameStages-refl (s ∷ ss) = (refl, SameStages-refl ss)

  pub seed-same :
      (tendon : List W) (a b : Ema W) (p q : Bool)
      → p ≡ q
      → SameStages a b
      → (p ≡ true → a ≡ b)
      → seed tendon p a ≡ seed tendon q b
  unfolding seed
  seed-same tendon a b true true e s l = l refl
  seed-same tendon a b true false e s l = cc
  seed-same tendon a b false true e s l = cc
  seed-same tendon a b false false e s l = reset-SameStages tendon a b s

module _ {W : Type 0} ⦃d : Double W⦄ ⦃m : Libm W⦄ where
  see_first-unseen :
      (cur : Point W) (g h : History W) → SameHistory g h → see_first cur g ≡ see_first cur h
  unfolding see_first
  see_first-unseen cur g h (equal e) = ap (see_first cur) e
  see_first-unseen cur g h (unseen a b c e f k) = ground arith

  -- After one sample the histories are equal, and so are the windows.
  pub build-SameHistory : (u v : W) (g h : History W) → SameHistory g h → build u v g ≡ build u v h
  build-SameHistory u v g h same =
      let cur : Point W = (d.to_float u, d.to_float v) in
      build-eq u v g
      ∙ ap {A = History W} (λ s. (window_of cur s, store cur s)) (see_first-unseen cur g h same)
      ∙ sym (build-eq u v h)

module _ {W V : Type 0} ⦃d : Double W⦄ where
  pub SameSession-refl : (a : Motor W V) → SameSession a a
  SameSession-refl a = record {
    variables = refl;
    history = equal refl;
    stages = SameStages-refl a.lpf;
    initialized = refl;
    lpf = λ _. refl;
  }

  assemble : List W → V → History W → Ema W → Option (MotorOut W) × Motor W V
  assemble tendon variables history seeded =
      let (filtered, lpf') = Ema.step tendon seeded in
      (
        some (motor_out_of filtered),
        record { variables = variables; history = history; lpf = lpf'; lpf_initialized = true },
      )

  filter_prediction-assemble :
      (out_data : List ℤ) (a : Motor W V)
      → filter_prediction out_data a
        ≡ assemble
            (tendon_of out_data)
            a.variables
            a.history
            (seed (tendon_of out_data) a.lpf_initialized a.lpf)
  unfolding filter_prediction assemble
  filter_prediction-assemble out_data a = refl

  -- One prediction from two such states: the results are the same, and the states equal.
  filter_prediction-SameSession :
      (out_data : List ℤ) (a b : Motor W V)
      → a.history ≡ b.history
      → SameSession a b
      → filter_prediction out_data a ≡ filter_prediction out_data b
  filter_prediction-SameSession out_data a b e s =
      let seeds =
        seed-same (tendon_of out_data) a.lpf b.lpf a.lpf_initialized b.lpf_initialized s.initialized
          s.stages s.lpf in
      filter_prediction-assemble out_data a
      ∙ (λ i. assemble (tendon_of out_data) (s.variables i) (e i) (seeds i))
      ∙ sym (filter_prediction-assemble out_data b)

  pub after_invoke-SameSession :
      (result : Option (List ℤ)) (a b : Motor W V)
      → a.history ≡ b.history
      → SameSession a b
      → ((after_invoke result a).0 ≡ (after_invoke result b).0)
        × SameSession (after_invoke result a).1 (after_invoke result b).1
  unfolding after_invoke
  after_invoke-SameSession none a b e s = (refl, s)
  after_invoke-SameSession (some out_data) a b e s =
      let same = filter_prediction-SameSession out_data a b e s in
      (
        ap (λ r. r.0) same,
        subst
            (λ (r : Option (MotorOut W) × Motor W V).
              SameSession (filter_prediction out_data a).1 r.1)
            same (SameSession-refl (filter_prediction out_data a).1),
      )
