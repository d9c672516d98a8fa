-- ===== src/Tests/Motors.antt =====
-- src/motor_inference.cpp and src/controller_pipeline.hpp on a concrete interpreter.
use imx8mp_pipe_line_setup.Prelude.{
  ℕ, ◌-◌, ◌≡◌, refl, true, false, none, some, List, [], ◌∷◌, ◌++◌, arith, ◌==◌, if◌then◌else◌,
  length, replicate, All,
}
use imx8mp_pipe_line_setup.Prelude.Int.{ℤ, pos, negsuc, ◌≤ℤ◌, ◌+ℤ◌, ◌-ℤ◌, ◌*ℤ◌}
use imx8mp_pipe_line_setup.Double.Micro.{micro_double}
use imx8mp_pipe_line_setup.Double.Printing.{micro_libm}
use imx8mp_pipe_line_setup.Pipeline.Quantize.{quantize, dequantize}
use imx8mp_pipe_line_setup.Pipeline.Quantize.Range.{Saturated}
use imx8mp_pipe_line_setup.Pipeline.Quantize.Nearest.{Nearest, quantize-Nearest}
use imx8mp_pipe_line_setup.Pipeline.History.{Point, History, new_history, see_first, build}
use imx8mp_pipe_line_setup.Pipeline.History.Window.{IsHistory, recent}
use imx8mp_pipe_line_setup.Pipeline.History.Trail.{IsTrail, way, trail_with, build-IsTrail}
use imx8mp_pipe_line_setup.Pipeline.Ema.{Ema, new_ema}
use imx8mp_pipe_line_setup.Pipeline.Ema.Steady.{IsSteady}
use imx8mp_pipe_line_setup.Motor.{
  Interpreter, Motor, initial_motor, motor_inference_compute, motor_inference_reset, seq_len,
  output_scale, output_zero_point, tendon_of,
}
use imx8mp_pipe_line_setup.Motor.Session.{run, run-reset}
use imx8mp_pipe_line_setup.Motor.Tensor.{
  motor_inference_compute-input, motor_inference_compute-first,
}
use imx8mp_pipe_line_setup.Tests.{interpreter, motor}

-- A stick that moves twice.
abbrev joysticks : List (ℤ × ℤ)
joysticks = (pos 500_000, negsuc 249_999) ∷ (pos 900_000, pos 100_000) ∷ []

-- A state that has been in use.
abbrev used : Motor ℤ ℕ
used = record (initial_motor {V = ℕ} 9) {
  history = record (initial_motor {V = ℕ} 9).history {
    hist = (pos 3, pos 4) ∷ [];
    first_sample = (pos 1, pos 2);
    has_first = true;
  };
  lpf_initialized = true;
}

run-reset_example :
    run interpreter joysticks (motor_inference_reset interpreter (initial_motor 7))
    ≡ run interpreter joysticks (motor_inference_reset interpreter used)
unfolding initial_motor new_history new_ema
run-reset_example =
    run-reset interpreter joysticks (initial_motor 7) used (λ v w. refl) refl refl
      (refl, (refl, tt))

used-IsHistory : IsHistory ((pos 3, pos 4) ∷ []) used.history
unfolding initial_motor new_history
used-IsHistory = record { hist_is = refl; none_before = λ e. cc }

used_len : used.history.seq_len ≡ seq_len
unfolding initial_motor new_history
used_len = refl

abbrev anchors : List (Point ℤ)
anchors = (pos 3, pos 4) ∷ []

-- The way since the last anchor, in two steps.
abbrev trail : List (Point ℤ)
trail = (pos 3, pos 4) ∷ (pos 5_000_000, pos 4) ∷ (pos 5_000_000, pos 9) ∷ []

abbrev walked : History ℤ
walked = record used.history {
  prev_sample = (pos 5_000_000, pos 9);
  accum_dist = way (micro_double.decimal 0 0) trail;
}

walked-IsHistory : IsHistory anchors walked
unfolding initial_motor new_history
walked-IsHistory = record { hist_is = refl; none_before = λ e. cc }

walked-IsTrail : IsTrail trail walked
unfolding initial_motor new_history
walked-IsTrail = record {
  way_is = refl;
  none_before = λ e. cc;
  ends = λ e. ((pos 3, pos 4) ∷ (pos 5_000_000, pos 4) ∷ [], refl);
}

walked_len : walked.seq_len ≡ seq_len
unfolding initial_motor new_history
walked_len = refl

build-IsTrail_example :
    let cur : Point ℤ = (pos 5, pos 6) in
    let seen = see_first cur walked in
    let path = trail_with cur walked trail in
    let far = micro_double.le walked.anchor_distance (way (micro_double.decimal 0 0) path) in
    let (window, h') = build (pos 5) (pos 6) walked in
    (window
      ≡ recent (walked.seq_len - 1) (replicate (walked.seq_len - 1) seen.first_sample ++ anchors)
        ++ (cur ∷ []))
    × (length window ≡ walked.seq_len)
    × IsHistory (if far then anchors ++ (cur ∷ []) else anchors) h'
    × IsTrail (if far then cur ∷ [] else path) h'
    × (h'.seq_len ≡ walked.seq_len)
    × (h'.first_sample ≡ seen.first_sample)
    × (h'.prev_sample ≡ cur)
    × (h'.has_first ≡ true)
build-IsTrail_example =
    build-IsTrail (pos 5) (pos 6) walked anchors trail (omega (arith, walked_len)) walked-IsHistory
      walked-IsTrail

-- An interpreter that fails on any input of another length.
abbrev strict_interpreter : Interpreter ℕ
strict_interpreter = record {
  invoke = λ v input. if length input == 40 then interpreter.invoke v input else (none, v);
  reset_variables = λ v. 0;
}

motor_inference_compute-input_example :
    motor_inference_compute strict_interpreter (pos 5) (pos 6) used
    ≡ motor_inference_compute interpreter (pos 5) (pos 6) used
motor_inference_compute-input_example =
    motor_inference_compute-input strict_interpreter interpreter (pos 5) (pos 6) used
      ((pos 3, pos 4) ∷ []) (λ v input e a. rw e refl) used_len used-IsHistory

motor_fresh : motor.lpf_initialized ≡ false
unfolding initial_motor
motor_fresh = refl

motor-IsSteady :
    All (λ stage. All (IsSteady stage.alpha) (tendon_of (pos 10 ∷ pos 20 ∷ pos 30 ∷ []))) motor.lpf
unfolding initial_motor new_ema dequantize tendon_of ◌-ℤ◌ ◌+ℤ◌ ◌*ℤ◌
motor-IsSteady = ((refl, (refl, (refl, tt))), ((refl, (refl, (refl, tt))), tt))

motor_inference_compute-first_example :
    (motor_inference_compute interpreter (pos 5) (pos 6) motor).0
    ≡ some (record {
      m1 = dequantize (pos 10) output_scale output_zero_point;
      m2 = dequantize (pos 20) output_scale output_zero_point;
      m3 = dequantize (pos 30) output_scale output_zero_point;
      m4 = pos 0;
    })
motor_inference_compute-first_example =
    motor_inference_compute-first interpreter (pos 5) (pos 6) motor (pos 10 ∷ pos 20 ∷ pos 30 ∷ [])
      motor_fresh refl motor-IsSteady

-- A value half-way between two.
quantize-Nearest_example :
    (r : ℤ) × Nearest
      (micro_double.div (pos 3_500_000) (pos 1_000_000))
      (micro_double.to_int32
        (micro_double.floor (micro_double.div (pos 3_500_000) (pos 1_000_000))))
      r
    × (negsuc 127 ≤ℤ quantize (pos 3_500_000) (pos 1_000_000) (negsuc 6))
    × (quantize (pos 3_500_000) (pos 1_000_000) (negsuc 6) ≤ℤ pos 127)
    × Saturated (r +ℤ negsuc 6) (quantize (pos 3_500_000) (pos 1_000_000) (negsuc 6))
unfolding ◌+ℤ◌ ◌-ℤ◌ ◌*ℤ◌
quantize-Nearest_example =
    quantize-Nearest (pos 3_500_000) (pos 1_000_000) (negsuc 6) (omega arith, omega arith)
      (omega arith) (omega arith)

abbrev stages : Ema ℤ
stages = record { alpha = pos 500_000; y = pos 7 ∷ pos 8 ∷ [] } ∷ []
