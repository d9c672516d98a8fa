-- ===== src/Motor/Tensor.antt =====
-- What a step writes into the input tensor, and what it returns.
use imx8mp_pipe_line_setup.Prelude.{
  ◌*◌, ◌≡◌, refl, ap, ◌∙◌, false, Option, some, List, [], ◌∷◌, arith, length, get_or, All,
}
use imx8mp_pipe_line_setup.Prelude.Int.{ℤ, pos, negsuc, ◌≤ℤ◌}
use imx8mp_pipe_line_setup.Double.{Double, Libm}
use imx8mp_pipe_line_setup.Pipeline.Quantize.{dequantize}
use imx8mp_pipe_line_setup.Pipeline.Quantize.Range.{quantize_range}
use imx8mp_pipe_line_setup.Pipeline.History.{Point, build}
use imx8mp_pipe_line_setup.Pipeline.History.Window.{IsHistory, build-window}
use imx8mp_pipe_line_setup.Pipeline.Ema
use imx8mp_pipe_line_setup.Pipeline.Ema.{Ema}
use imx8mp_pipe_line_setup.Pipeline.Ema.Steady.{IsSteady, step-reset}
use imx8mp_pipe_line_setup.Motor.{
  Interpreter, Motor, seq_len, input_scale, input_zero_point, output_scale, output_zero_point,
  feature_of, input_bytes, tendon_of, seed, motor_out_of, filter_prediction, after_invoke,
  motor_inference_compute,
}

abbrev pub IsInt8 : ℤ → Type 0
IsInt8 q = (negsuc 127 ≤ℤ q) × (q ≤ℤ pos 127)

module _ {W : Type 0} ⦃d : Double W⦄ where
  length-input_bytes : (window : List (Point W)) → length (input_bytes window) ≡ 2 * length window
  unfolding input_bytes
  length-input_bytes [] = refl
  length-input_bytes ((u, v) ∷ window) = omega (arith, length-input_bytes window)

  input_bytes-IsInt8 : (window : List (Point W)) → All IsInt8 (input_bytes window)
  unfolding input_bytes
  input_bytes-IsInt8 [] = tt
  input_bytes-IsInt8 ((u, v) ∷ window) =
      let (lo, hi, same) = quantize_range u input_scale input_zero_point in
      let (lo', hi', same') = quantize_range v input_scale input_zero_point in
      ((lo, hi), ((lo', hi'), input_bytes-IsInt8 window))

module _ {W V : Type 0} ⦃d : Double W⦄ ⦃m : Libm W⦄ where
  -- In a session's state motor_inference_compute calls Invoke() on 40 bytes only, as many as the input
  -- tensor holds, and each is an int8_t: interpreters that agree on such inputs give the same result and
  -- state.
  pub motor_inference_compute-input :
      (i j : Interpreter V) (x y : W) (a : Motor W V) (anchors : List (Point W))
      → ((v : V) (input : List ℤ)
          → length input ≡ 40
          → All IsInt8 input
          → i.invoke v input ≡ j.invoke v input)
      → a.history.seq_len ≡ seq_len
      → IsHistory anchors a.history
      → motor_inference_compute i x y a ≡ motor_inference_compute j x y a
  unfolding motor_inference_compute
  motor_inference_compute-input i j x y a anchors agree len h =
      let (u, v) = feature_of x y in
      let built = build u v a.history in
      let window = build-window u v a.history anchors (omega arith) h in
      let full : length (input_bytes built.0) ≡ 40 =
        omega (arith, length-input_bytes built.0, window.1) in
      let same = agree a.variables (input_bytes built.0) full (input_bytes-IsInt8 built.0) in
      ap
        (λ (r : Option (List ℤ) × V).
          after_invoke r.0 (record a { history = built.1; variables = r.1 }))
        same

  filter_prediction-first :
      (out_data : List ℤ) (a : Motor W V)
      → a.lpf_initialized ≡ false
      → All (λ stage. All (IsSteady stage.alpha) (tendon_of out_data)) a.lpf
      → (filter_prediction out_data a).0 ≡ some (motor_out_of (tendon_of out_data))
  unfolding filter_prediction
  filter_prediction-first out_data a fresh steady =
      let tendon = tendon_of out_data in
      let seeded : seed tendon a.lpf_initialized a.lpf ≡ Ema.reset tendon a.lpf = rw fresh in
      ap (λ lpf. some (motor_out_of (Ema.step tendon lpf).0)) seeded
      ∙ ap (λ (r : List W × Ema W). some (motor_out_of r.0)) (step-reset tendon a.lpf steady)

  -- The first prediction of a session is returned as it is, each value dequantized and not yet filtered,
  -- where these values are steady under the filter; the fourth position is the fixed one.
  pub motor_inference_compute-first :
      (interpreter : Interpreter V) (x y : W) (a : Motor W V) (out_data : List ℤ)
      → a.lpf_initialized ≡ false
      → (interpreter.invoke a.variables
          (input_bytes (build (feature_of x y).0 (feature_of x y).1 a.history).0)).0
        ≡ some out_data
      → All (λ stage. All (IsSteady stage.alpha) (tendon_of out_data)) a.lpf
      → (motor_inference_compute interpreter x y a).0
        ≡ some (record {
          m1 = dequantize (get_or out_data 0 (pos 0)) output_scale output_zero_point;
          m2 = dequantize (get_or out_data 1 (pos 0)) output_scale output_zero_point;
          m3 = dequantize (get_or out_data 2 (pos 0)) output_scale output_zero_point;
          m4 = d.decimal 0 0;
        })
  unfolding motor_inference_compute after_invoke tendon_of motor_out_of
  motor_inference_compute-first interpreter x y a out_data fresh e steady =
      let built = build (feature_of x y).0 (feature_of x y).1 a.history in
      let variables' = (interpreter.invoke a.variables (input_bytes built.0)).1 in
      let a' = record a { history = built.1; variables = variables' } in
      ap (λ r. (after_invoke r a').0) e ∙ filter_prediction-first out_data a' fresh steady
