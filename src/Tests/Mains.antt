-- ===== src/Tests/Mains.antt =====
-- src/main.cpp and the set-up of src/motor_inference.cpp on a concrete machine.
use imx8mp_pipe_line_setup.Prelude.{
  ℕ, ◌≡◌, refl, true, false, inl, inr, Option, none, some, List, [], ◌∷◌, Bytes, codes,
}
use imx8mp_pipe_line_setup.Prelude.Int.{ℤ, pos, negsuc}
use imx8mp_pipe_line_setup.Double.Micro.{micro_double, Micro-IsOrdered}
use imx8mp_pipe_line_setup.Double.Printing.{micro_stdio, micro_libm}
use imx8mp_pipe_line_setup.Motor.{initial_motor, motor_inference_reset}
use imx8mp_pipe_line_setup.Motor.Session.{run}
use imx8mp_pipe_line_setup.Motor.Setup.{
  Runtime, motor_inference_init, InitOutcome, motor_inference_init-InitOutcome,
  motor_inference_init-run,
}
use imx8mp_pipe_line_setup.Receiver.{Receiver, receive, Handled, callback_controller}
use imx8mp_pipe_line_setup.Receiver.Safety.{IsReceiver}
use imx8mp_pipe_line_setup.Server.{bridge_server_start}
use imx8mp_pipe_line_setup.Bridge.{done}
use imx8mp_pipe_line_setup.TimingLog.{timing_log_init}
use imx8mp_pipe_line_setup.Gpio.{gpio_toggle_init}
use imx8mp_pipe_line_setup.Main.{Machine, Options, statics, main}
use imx8mp_pipe_line_setup.Main.Start.{MainOutcome, main-MainOutcome, main-safe}
use imx8mp_pipe_line_setup.Tests.{frame, interpreter, sysfs, session, session-IsSession}

abbrev runtime : Runtime ℕ
runtime = record {
  model_loads = true;
  interpreter_builds = true;
  delegate_loads = true;
  delegate_accepts = true;
  tensors_allocate = true;
  input_is_int8 = true;
  output_is_int8 = true;
  input_size = 40;
  output_size = 3;
  variables = 0;
}

abbrev npu_path : Option Bytes
npu_path = some (codes "/usr/lib/libvx_delegate.so")

motor_inference_init-InitOutcome_example :
    InitOutcome {W = ℤ} runtime interpreter npu_path
      (motor_inference_init runtime interpreter npu_path none)
motor_inference_init-InitOutcome_example =
    motor_inference_init-InitOutcome runtime interpreter npu_path none

abbrev joysticks : List (ℤ × ℤ)
joysticks = (pos 500_000, negsuc 249_999) ∷ (pos 900_000, pos 100_000) ∷ []

with_warm_up :
    motor_inference_init {W = ℤ} runtime interpreter npu_path none ≡ (pos 0, some (initial_motor 0))
unfolding motor_inference_init
with_warm_up = refl

with_other_variables :
    motor_inference_init {W = ℤ} (record runtime { variables = 5 }) interpreter npu_path none
    ≡ (pos 0, some (initial_motor 5))
unfolding motor_inference_init
with_other_variables = refl

motor_inference_init-run_example :
    run interpreter joysticks (motor_inference_reset interpreter (initial_motor 0))
    ≡ run interpreter joysticks (motor_inference_reset interpreter (initial_motor 5))
motor_inference_init-run_example =
    motor_inference_init-run interpreter runtime (record runtime { variables = 5 }) npu_path none
      none (initial_motor 0) (initial_motor 5) joysticks (λ v w. refl) with_warm_up
      with_other_variables

-- Every port reads as 9000.
abbrev pub machine : Machine ℕ
machine = record {
  atoi = λ text. pos 9_000;
  runtime = λ model delegate. runtime;
  interpreter = λ model delegate. interpreter;
  fopen = λ path. some [];
  sysfs = sysfs;
  create_context = some 1;
  create_vhost = λ port cert key. true;
  session = session;
}

abbrev pub arguments : List Bytes
arguments = codes "9000" ∷ codes "9000" ∷ codes "cert" ∷ codes "key" ∷ []

main-MainOutcome_example : MainOutcome machine (main {W = ℤ} machine arguments)
main-MainOutcome_example = main-MainOutcome machine session-IsSession arguments

-- A certificate without its key.
half_paired : main {W = ℤ} machine (codes "9000" ∷ codes "9000" ∷ codes "cert" ∷ []) ≡ inl (pos 1)
unfolding main
half_paired = refl

abbrev options : Options
options = record {
  controller_port = pos 9_000;
  icu_port = pos 9_000;
  cert_path = some (codes "cert");
  key_path = some (codes "key");
  model_path = codes "TfLSTM_l2_w128_s20_int8.tflite";
  delegate_path = codes "/usr/lib/libvx_delegate.so";
  timing_log_path = [];
}

abbrev booted : Receiver ℤ ℕ
booted = record {
  session = session;
  server = bridge_server_start 1 (statics (initial_motor 0) none);
  gpio = (gpio_toggle_init sysfs (record { ready = false; writes = [] })).1;
}

boots : main machine arguments ≡ inr (options, booted)
unfolding main motor_inference_init timing_log_init
boots = refl

main-safe_example :
    IsReceiver booted
    × (h : Handled ℤ ℕ) × (callback_controller interpreter sysfs
          (pos 2_000_000)
          (pos 2_100_000)
          (receive true true frame)
          booted
        ≡ some h)
main-safe_example =
    main-safe machine Micro-IsOrdered session-IsSession arguments options booted booted
      (pos 2_000_000) (pos 2_100_000) (receive true true frame) boots (done refl)
