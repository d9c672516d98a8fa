-- ===== src/Motor.antt =====
-- src/motor_inference.cpp: one step of the controller model on a joystick position.
pub mod Same
pub mod Session
pub mod Tensor
pub mod Setup
use imx8mp_pipe_line_setup.Prelude.{
  ℕ, Bool, true, false, Option, none, some, List, [], ◌∷◌, ◌++◌, if◌then◌else◌, get_or,
}
use imx8mp_pipe_line_setup.Prelude.Int.{ℤ, pos, negsuc}
use imx8mp_pipe_line_setup.Double.{Double, Libm}
use imx8mp_pipe_line_setup.Pipeline.Quantize.{quantize, dequantize}
use imx8mp_pipe_line_setup.Pipeline.Angles.{deg_to_rad, clamp, xy_to_angles, feature_transform}
use imx8mp_pipe_line_setup.Pipeline.History
use imx8mp_pipe_line_setup.Pipeline.History.{Point, History, build}
use imx8mp_pipe_line_setup.Pipeline.Ema
use imx8mp_pipe_line_setup.Pipeline.Ema.{Ema}

-- The TensorFlow Lite interpreter, with `V` for the state of its variable tensors: `Invoke()` on the
-- input tensor's bytes, whose result is `none` if it is not `kTfLiteOk`, and `ResetVariableTensors()`.
pub record Interpreter (V : Type 0) : Type 0 where
  pub invoke : V → List ℤ → Option (List ℤ) × V
  pub reset_variables : V → V

-- The globals of the module once `motor_inference_init` has returned 0.
pub record Motor (W V : Type 0) : Type 0 where
  pub variables : V
  pub history : History W
  pub lpf : Ema W
  pub lpf_initialized : Bool

-- `motor_out`.
pub record MotorOut (W : Type 0) : Type 0 where
  pub m1 : W
  pub m2 : W
  pub m3 : W
  pub m4 : W

abbrev pub seq_len : ℕ
seq_len = 20

abbrev pub input_zero_point : ℤ
input_zero_point = negsuc 6

abbrev pub output_zero_point : ℤ
output_zero_point = negsuc 127

module _ {W : Type 0} ⦃d : Double W⦄ where
  abbrev pub theta_limit_rad : W
  unfolding deg_to_rad
  theta_limit_rad = deg_to_rad (d.decimal 90 0)

  abbrev pub phi_offset : W
  phi_offset = d.decimal 0 0

  abbrev pub input_scale : W
  input_scale = d.to_float (d.decimal 4401035010814667 16)

  abbrev pub output_scale : W
  output_scale = d.to_float (d.decimal 4787081480026245 17)

  abbrev pub insertion_motor_position : W
  insertion_motor_position = d.decimal 0 0

  -- The loop that fills the input tensor, two values for each point of the window.
  pub input_bytes : List (Point W) → List ℤ
  input_bytes [] = []
  input_bytes ((u, v) ∷ window) =
      quantize u input_scale input_zero_point
      ∷ quantize v input_scale input_zero_point
      ∷ input_bytes window

  -- The loop over the three motors. The output tensor has three bytes: `motor_inference_init` checks it.
  unfoldable pub tendon_of : List ℤ → List W
  tendon_of out_data =
      dequantize (get_or out_data 0 (pos 0)) output_scale output_zero_point
      ∷ dequantize (get_or out_data 1 (pos 0)) output_scale output_zero_point
      ∷ dequantize (get_or out_data 2 (pos 0)) output_scale output_zero_point
      ∷ []

  -- The filter is seeded with the first prediction of the session.
  pub seed : List W → Bool → Ema W → Ema W
  seed tendon initialized lpf = if initialized then lpf else Ema.reset tendon lpf

  pub motor_out_of : List W → MotorOut W
  motor_out_of filtered = record {
    m1 = get_or filtered 0 (d.decimal 0 0);
    m2 = get_or filtered 1 (d.decimal 0 0);
    m3 = get_or filtered 2 (d.decimal 0 0);
    m4 = insertion_motor_position;
  }

  module _ ⦃m : Libm W⦄ where
    -- The feature (u, v) of a joystick position.
    pub feature_of : W → W → W × W
    unfolding clamp xy_to_angles feature_transform
    feature_of joystick_x joystick_y =
        let one = d.decimal 1 0 in
        let x = clamp joystick_x (d.neg one) one in
        let y = clamp joystick_y (d.neg one) one in
        let (theta, phi) = xy_to_angles x y theta_limit_rad in
        feature_transform theta (d.add phi phi_offset)

module _ {W V : Type 0} ⦃d : Double W⦄ where
  -- From the prediction on.
  pub filter_prediction : List ℤ → Motor W V → Option (MotorOut W) × Motor W V
  unfolding tendon_of motor_out_of seed Ema.reset Ema.step
  filter_prediction out_data motor =
      let tendon = tendon_of out_data in
      let seeded = seed tendon motor.lpf_initialized motor.lpf in
      let (filtered, lpf') = Ema.step tendon seeded in
      (some (motor_out_of filtered), record motor { lpf = lpf'; lpf_initialized = true })

  -- What `Invoke()` left, and `none` for the return value -1, which leaves `motor_out` alone.
  pub after_invoke : Option (List ℤ) → Motor W V → Option (MotorOut W) × Motor W V
  unfolding filter_prediction
  after_invoke none motor = (none, motor)
  after_invoke (some out_data) motor = filter_prediction out_data motor

module _ {W V : Type 0} ⦃d : Double W⦄ ⦃m : Libm W⦄ where
  -- The state that `motor_inference_init` sets up, past its checks of the model.
  unfoldable pub initial_motor : V → Motor W V
  unfolding History.new_history Ema.new_ema
  initial_motor variables = record {
    variables = variables;
    history = History.new_history seq_len (d.decimal 5 2);
    lpf = Ema.new_ema 3 (d.decimal 2 2) (d.decimal 10 0) 2;
    lpf_initialized = false;
  }

  module _ (interpreter : Interpreter V) where
    unfoldable pub motor_inference_compute : W → W → Motor W V → Option (MotorOut W) × Motor W V
    unfolding feature_of input_bytes after_invoke build quantize
    motor_inference_compute joystick_x joystick_y motor =
        let (u, v) = feature_of joystick_x joystick_y in
        let (window, history') = build u v motor.history in
        let (result, variables') = interpreter.invoke motor.variables (input_bytes window) in
        after_invoke result (record motor { history = history'; variables = variables' })

    unfoldable pub motor_inference_reset : Motor W V → Motor W V
    unfolding History.reset
    motor_inference_reset motor = record motor {
      variables = interpreter.reset_variables motor.variables;
      history = History.reset motor.history;
      lpf_initialized = false;
    }
