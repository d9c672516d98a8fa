-- ===== src/Motor/Session.antt =====
-- A reset hides what came before it.
use mathlib.Core.Path.{ap₂}
use imx8mp_pipe_line_setup.Prelude.{◌≡◌, refl, sym, ◌∙◌, Option, List, [], ◌∷◌}
use imx8mp_pipe_line_setup.Double.{Double, Libm}
use imx8mp_pipe_line_setup.Pipeline.History.{History, Point, build}
use imx8mp_pipe_line_setup.Motor.{
  Interpreter, Motor, MotorOut, after_invoke, feature_of, input_bytes, motor_inference_compute,
  motor_inference_reset,
}
use imx8mp_pipe_line_setup.Motor.Same.{
  equal, unseen, SameStages, SameSession, build-SameHistory, after_invoke-SameSession,
}

-- Joystick positions, and what each step returns.
pub run :
    {W V : Type 0} ⦃d : Double W⦄ ⦃m : Libm W⦄
    → Interpreter V
    → List (W × W)
    → Motor W V
    → List (Option (MotorOut W))
run interpreter [] motor = []
run interpreter ((x, y) ∷ joysticks) motor =
    let (out, motor') = motor_inference_compute interpreter x y motor in
    out ∷ run interpreter joysticks motor'

-- `ResetVariableTensors` leaves a state that does not depend on the one before.
abbrev pub ForgetsVariables : {V : Type 0} → Interpreter V → Type 0
ForgetsVariables {V} interpreter =
    (v w : V) → interpreter.reset_variables v ≡ interpreter.reset_variables w

module _ {W V : Type 0} ⦃d : Double W⦄ ⦃m : Libm W⦄ (interpreter : Interpreter V) where
  resume : List (Point W) × History W → V → Motor W V → Option (MotorOut W) × Motor W V
  resume built variables a =
      let result = interpreter.invoke variables (input_bytes built.0) in
      after_invoke result.0 (record a { history = built.1; variables = result.1 })

  compute-resume :
      (x y : W) (a : Motor W V)
      → motor_inference_compute interpreter x y a
        ≡ resume (build (feature_of x y).0 (feature_of x y).1 a.history) a.variables a
  unfolding motor_inference_compute resume
  compute-resume x y a = refl

  resume-SameSession :
      (built : List (Point W) × History W) (variables : V) (a b : Motor W V)
      → SameSession a b
      → ((resume built variables a).0 ≡ (resume built variables b).0)
        × SameSession (resume built variables a).1 (resume built variables b).1
  unfolding resume
  resume-SameSession built variables a b s =
      let result = interpreter.invoke variables (input_bytes built.0) in
      after_invoke-SameSession result.0 (record a { history = built.1; variables = result.1 })
        (record b { history = built.1; variables = result.1 }) refl
        (record {
          variables = refl;
          history = equal refl;
          stages = s.stages;
          initialized = s.initialized;
          lpf = s.lpf;
        })

  -- A step from two states that behave the same returns the same, and leaves two such states.
  pub compute-SameSession :
      (x y : W) (a b : Motor W V)
      → SameSession a b
      → ((motor_inference_compute interpreter x y a).0
          ≡ (motor_inference_compute interpreter x y b).0)
        × SameSession
            (motor_inference_compute interpreter x y a).1
            (motor_inference_compute interpreter x y b).1
  compute-SameSession x y a b s =
      let (u, v) = feature_of x y in
      let built : build u v b.history ≡ build u v a.history =
        sym (build-SameHistory u v a.history b.history s.history) in
      let as_a : motor_inference_compute interpreter x y b
          ≡ resume (build u v a.history) a.variables b =
        compute-resume x y b ∙ (λ i. resume (built i) (sym s.variables i) b) in
      rw (compute-resume x y a, as_a) (resume-SameSession (build u v a.history) a.variables a b s)

  run-SameSession :
      (joysticks : List (W × W)) (a b : Motor W V)
      → SameSession a b
      → run interpreter joysticks a ≡ run interpreter joysticks b
  unfolding run
  run-SameSession [] a b s = refl
  run-SameSession ((x, y) ∷ joysticks) a b s =
      let (same, later) = compute-SameSession x y a b s in
      ap₂ ◌∷◌ same (run-SameSession joysticks _ _ later)

  -- Two states that have been reset behave the same.
  pub reset-SameSession :
      (a b : Motor W V)
      → ForgetsVariables interpreter
      → a.history.seq_len ≡ b.history.seq_len
      → a.history.anchor_distance ≡ b.history.anchor_distance
      → SameStages a.lpf b.lpf
      → SameSession (motor_inference_reset interpreter a) (motor_inference_reset interpreter b)
  unfolding motor_inference_reset
  reset-SameSession a b forgets len distance stages = record {
    variables = forgets a.variables b.variables;
    history = unseen len distance refl refl refl refl;
    stages = stages;
    initialized = refl;
    lpf = λ e. cc;
  }

  -- After motor_inference_reset all later steps return the same whatever the state was before, so a
  -- session sees nothing of those before it. The two states have windows of one length and anchor
  -- distance and filters with the same stages, and the interpreter's reset of its variables does not
  -- depend on what they were.
  pub run-reset :
      (joysticks : List (W × W)) (a b : Motor W V)
      → ForgetsVariables interpreter
      → a.history.seq_len ≡ b.history.seq_len
      → a.history.anchor_distance ≡ b.history.anchor_distance
      → SameStages a.lpf b.lpf
      → run interpreter joysticks (motor_inference_reset interpreter a)
        ≡ run interpreter joysticks (motor_inference_reset interpreter b)
  run-reset joysticks a b forgets len distance stages =
      run-SameSession joysticks _ _ (reset-SameSession a b forgets len distance stages)
