-- ===== src/Main.antt =====
-- src/main.cpp: the command line, and the set-up until the service loop begins, which is in Service.
pub mod Start
pub mod Program
use imx8mp_pipe_line_setup.Prelude.{
  ℕ, zero, suc, Bool, true, false, not, ◌&&◌, ◌||◌, ◌⊎◌, inl, inr, Option, none, some, List, [],
  ◌∷◌, ◌==◌, if◌then◌else◌, replicate, Bytes, codes, ◌>>=◌,
}
use imx8mp_pipe_line_setup.Prelude.Int.{ℤ, pos, ltb_ℤ}
use imx8mp_pipe_line_setup.Double.{Double, Libm}
use imx8mp_pipe_line_setup.Motor.{Interpreter, Motor}
use imx8mp_pipe_line_setup.Motor.Setup.{Runtime, motor_inference_init}
use imx8mp_pipe_line_setup.FrameStats.{RunningStat, Stats}
use imx8mp_pipe_line_setup.TimingLog.{LogFile, timing_log_init}
use imx8mp_pipe_line_setup.Gpio.{Sysfs, Gpio, gpio_toggle_init}
use imx8mp_pipe_line_setup.Server.{Server, max_bridged_frame_len, bridge_server_start}
use imx8mp_pipe_line_setup.Receiver.{Session, Receiver}

abbrev pub default_controller_port : ℤ
default_controller_port = pos 8081

abbrev pub default_icu_port : ℤ
default_icu_port = pos 8080

abbrev pub default_model_path : Bytes
default_model_path = codes "TfLSTM_l2_w128_s20_int8.tflite"

abbrev pub default_delegate_path : Bytes
default_delegate_path = codes "/usr/lib/libvx_delegate.so"

-- The variables of `main` after the command line; a path is `none` for the null pointer.
pub record Options : Type 0 where
  pub controller_port : ℤ
  pub icu_port : ℤ
  pub cert_path : Option Bytes
  pub key_path : Option Bytes
  pub model_path : Bytes
  pub delegate_path : Bytes
  pub timing_log_path : Bytes

-- `argv[i + 1]`, if there are so many.
pub argument : List Bytes → ℕ → Option Bytes
argument [] i = none
argument (arg ∷ args) zero = some arg
argument (arg ∷ args) (suc i) = argument args i

pub or_default : Bytes → Option Bytes → Bytes
or_default default none = default
or_default default (some arg) = arg

-- `strcmp(a, b) == 0`
pub same_text : Bytes → Bytes → Bool
same_text [] [] = true
same_text [] (c ∷ cs) = false
same_text (b ∷ bs) [] = false
same_text (b ∷ bs) (c ∷ cs) = b == c && same_text bs cs

-- `port <= 0 || port > 65535`
pub bad_port : ℤ → Bool
bad_port port = not (ltb_ℤ (pos 0) port) || ltb_ℤ (pos 65_535) port

-- A port, or `none` for the usage text; `atoi` is the C library's function.
pub port_of : (Bytes → ℤ) → ℤ → Option Bytes → Option ℤ
unfolding bad_port
port_of atoi default none = some default
port_of atoi default (some arg) = if bad_port (atoi arg) then none else some (atoi arg)

pub delegate_of : Option Bytes → Bytes
unfolding same_text
delegate_of none = default_delegate_path
delegate_of (some arg) = if same_text arg (codes "cpu") then [] else arg

-- `(cert_path != NULL) != (key_path != NULL)`
pub one_of_two : Option Bytes → Option Bytes → Bool
one_of_two none none = false
one_of_two none (some key) = true
one_of_two (some cert) none = true
one_of_two (some cert) (some key) = false

-- The command line without the program's name. A result `none` is the usage text and the exit status 1.
unfoldable pub parse_arguments : (Bytes → ℤ) → List Bytes → Option Options
unfolding argument port_of delegate_of or_default one_of_two
parse_arguments atoi args = do
  controller_port ← port_of atoi default_controller_port (argument args 0)
  icu_port ← port_of atoi default_icu_port (argument args 1)
  (if one_of_two (argument args 2) (argument args 3)
      then none
      else some (record {
        controller_port = controller_port;
        icu_port = icu_port;
        cert_path = argument args 2;
        key_path = argument args 3;
        model_path = or_default default_model_path (argument args 4);
        delegate_path = delegate_of (argument args 5);
        timing_log_path = or_default [] (argument args 6);
      }))

-- What `main` gets from outside: the C library, TensorFlow Lite on a model and a delegate, the file
-- system, sysfs, the context and the listeners of libwebsockets, and the first session that it allocates.
pub record Machine (V : Type 0) : Type 0 where
  pub atoi : Bytes → ℤ
  pub runtime : Bytes → Bytes → Runtime V
  pub interpreter : Bytes → Bytes → Interpreter V
  pub fopen : Bytes → Option Bytes
  pub sysfs : Sysfs
  pub create_context : Option ℕ
  pub create_vhost : ℤ → Option Bytes → Option Bytes → Bool
  pub session : Session

abbrev pub zero_stat : {W : Type 0} ⦃d : Double W⦄ → RunningStat W
zero_stat ⦃d⦄ = record { sum = d.decimal 0 0; least = d.decimal 0 0; greatest = d.decimal 0 0 }

module _ {W V : Type 0} ⦃d : Double W⦄ where
  -- The statics at the start of the program, with the motor model that has been set up.
  abbrev pub statics : Motor W V → LogFile → Server W V
  statics motor log = record {
    payload = replicate max_bridged_frame_len 0;
    payload_len = 0;
    context = none;
    protocol = none;
    motor = motor;
    stats = record { count = 0; transfer = zero_stat; processing = zero_stat; total = zero_stat };
    samples = [];
    log = log;
  }

  -- From the creation of the context on: the exit status, or the state in which the service loop begins.
  pub listen : Machine V → Options → Server W V → Gpio → Option ℕ → ℤ ⊎ (Options × Receiver W V)
  unfolding bridge_server_start
  listen machine options server gpio none = inl (pos 1)
  listen machine options server gpio (some context) =
      if not (machine.create_vhost options.controller_port options.cert_path options.key_path)
      then inl (pos 1)
      else if not (machine.create_vhost options.icu_port options.cert_path options.key_path)
      then inl (pos 1)
      else inr (
        options,
        record {
          session = machine.session;
          server = bridge_server_start context server;
          gpio = gpio;
        },
      )

  -- After `motor_inference_init`: the timing log and the marker, whose results are not looked at.
  pub set_up : Machine V → Options → ℤ × Option (Motor W V) → ℤ ⊎ (Options × Receiver W V)
  unfolding listen
  set_up machine options (ret, none) = inl (pos 1)
  set_up machine options (ret, some motor) =
      if ltb_ℤ ret (pos 0) || ltb_ℤ (pos 0) ret
      then inl (pos 1)
      else (let log = (timing_log_init machine.fopen (some options.timing_log_path) none).1 in
          let gpio = (gpio_toggle_init machine.sysfs (record { ready = false; writes = [] })).1 in
          listen machine options (statics motor log) gpio machine.create_context)

  module _ ⦃m : Libm W⦄ where
    pub run_options : Machine V → Option Options → ℤ ⊎ (Options × Receiver W V)
    unfolding set_up motor_inference_init
    run_options machine none = inl (pos 1)
    run_options machine (some options) = set_up machine options (
        motor_inference_init (machine.runtime options.model_path options.delegate_path)
          (machine.interpreter options.model_path options.delegate_path)
          (some options.delegate_path) none)

    -- The exit status, or the options and the state in which the service loop begins.
    unfoldable pub main : Machine V → List Bytes → ℤ ⊎ (Options × Receiver W V)
    unfolding run_options parse_arguments
    main machine args = run_options machine (parse_arguments machine.atoi args)
