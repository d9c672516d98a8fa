-- ===== src/Main/Start.antt =====
-- The set-up of src/main.cpp: it ends with the status 1, or leaves the bridge as it is to start.
use mathlib.Core.Path.{subst}
use imx8mp_pipe_line_setup.Prelude.{
  ℕ, ◌≡◌, refl, false, not, ◌||◌, ◌⊎◌, inl, inr, Option, none, some, List, [], arith, if◌then◌else◌,
  if_elim, length, length-replicate, Bytes, ◌>>=◌,
}
use imx8mp_pipe_line_setup.Prelude.Int.{ℤ, pos, ltb_ℤ, ◌≤ℤ◌}
use imx8mp_pipe_line_setup.Double.{Double, Libm, Stdio, IsOrdered}
use imx8mp_pipe_line_setup.Motor.{Motor, initial_motor}
use imx8mp_pipe_line_setup.Motor.Setup.{
  InitOutcome, ready, unusable, no_warm_up, IsUsable, use_npu, motor_inference_init-InitOutcome,
}
use imx8mp_pipe_line_setup.Gpio.{Gpio}
use imx8mp_pipe_line_setup.Server.{Server, max_bridged_frame_len, bridge_server_start}
use imx8mp_pipe_line_setup.Receiver.{Receiver, ControllerReason, Handled, callback_controller}
use imx8mp_pipe_line_setup.Receiver.Fragment.{IsSession}
use imx8mp_pipe_line_setup.Receiver.Safety.{IsReceiver}
use imx8mp_pipe_line_setup.Bridge.{IsStarted, Steps}
use imx8mp_pipe_line_setup.Bridge.Reachable.{Steps-safe}
use imx8mp_pipe_line_setup.Main.{
  Options, default_controller_port, default_icu_port, default_model_path, argument, or_default,
  bad_port, port_of, delegate_of, one_of_two, parse_arguments, Machine, statics, listen, set_up,
  run_options, main,
}

abbrev pub IsPort : ℤ → Type 0
IsPort port = (pos 1 ≤ℤ port) × (port ≤ℤ pos 65_535)

-- Both paths of the certificate and its key, or neither.
pub data IsPaired : Option Bytes → Option Bytes → Type 0 where
  plain : {cert key : Option Bytes} → cert ≡ none → key ≡ none → IsPaired cert key
  tls : {cert key : Option Bytes} (c k : Bytes) → cert ≡ some c → key ≡ some k → IsPaired cert key

pub record IsAccepted (options : Options) : Type 0 where
  pub controller_port : IsPort options.controller_port
  pub icu_port : IsPort options.icu_port
  pub paired : IsPaired options.cert_path options.key_path

-- What is known of an optional result.
abbrev Holding {ℓ κ} : {A : Type ℓ} → (A → Type κ) → Option A → Type κ
Holding P none = Unit
Holding P (some a) = P a

port_of-IsPort :
    (atoi : Bytes → ℤ) (default : ℤ) (arg : Option Bytes)
    → IsPort default
    → Holding IsPort (port_of atoi default arg)
unfolding port_of bad_port
port_of-IsPort atoi default none h = h
port_of-IsPort atoi default (some arg) h =
    if_elim (Holding IsPort) (bad_port (atoi arg)) (λ bad. tt) λ good. (ground arith, ground arith)

one_of_two-IsPaired : (cert key : Option Bytes) → one_of_two cert key ≡ false → IsPaired cert key
unfolding one_of_two
one_of_two-IsPaired none none e = plain refl refl
one_of_two-IsPaired none (some key) e = absurd cc
one_of_two-IsPaired (some cert) none e = absurd cc
one_of_two-IsPaired (some cert) (some key) e = tls cert key refl refl

parse_arguments-IsAccepted :
    (atoi : Bytes → ℤ) (args : List Bytes) → Holding IsAccepted (parse_arguments atoi args)
unfolding parse_arguments
parse_arguments-IsAccepted atoi args =
    both (port_of atoi default_controller_port (argument args 0))
      (port_of atoi default_icu_port (argument args 1))
      (port_of-IsPort atoi default_controller_port (argument args 0) (omega arith, omega arith))
      (port_of-IsPort atoi default_icu_port (argument args 1) (omega arith, omega arith))
  where
    both :
        (c i : Option ℤ)
        → Holding IsPort c
        → Holding IsPort i
        → Holding IsAccepted (
            c >>= λ controller_port. i >>= λ icu_port.
            if one_of_two (argument args 2) (argument args 3)
            then none
            else some (record {
              controller_port = controller_port;
              icu_port = icu_port;
              cert_path = argument args 2;
              key_path = argument args 3;
              model_path = or_default default_model_path (argument args 4);
              delegate_path = delegate_of (argument args 5);
              timing_log_path = or_default [] (argument args 6);
            }))
    both none i p q = tt
    both (some c) none p q = tt
    both (some c) (some i) p q =
        if_elim (Holding IsAccepted) (one_of_two (argument args 2) (argument args 3)) (λ one. tt)
          λ paired. record {
            controller_port = p;
            icu_port = q;
            paired = one_of_two-IsPaired (argument args 2) (argument args 3) paired;
          }

module _ {W V : Type 0} ⦃d : Double W⦄ ⦃m : Libm W⦄ (machine : Machine V) where
  -- The program ends with the status 1, or its service loop begins.
  pub data MainOutcome (o : ℤ ⊎ (Options × Receiver W V)) : Type 0 where
    exits : o ≡ inl (pos 1) → MainOutcome o
    runs :
        (options : Options) (r : Receiver W V) (variables : V)
        → o ≡ inr (options, r)
        → IsAccepted options
        → IsUsable
            (machine.runtime options.model_path options.delegate_path)
            (use_npu (some options.delegate_path))
        → r.server.motor ≡ initial_motor variables
        → IsStarted r
        → MainOutcome o

  module _ (session : IsSession machine.session) (options : Options) (accepted : IsAccepted options)
      (variables : V)
      (usable : IsUsable
        (machine.runtime options.model_path options.delegate_path)
        (use_npu (some options.delegate_path))) where
    listen-MainOutcome :
        (server : Server W V) (gpio : Gpio) (context : Option ℕ)
        → length server.payload ≡ max_bridged_frame_len
        → server.motor ≡ initial_motor variables
        → MainOutcome (listen machine options server gpio context)
    unfolding listen bridge_server_start
    listen-MainOutcome server gpio none storage motor_is = exits refl
    listen-MainOutcome server gpio (some context) storage motor_is =
        if_elim MainOutcome
          (not (machine.create_vhost options.controller_port options.cert_path options.key_path))
          (λ closed. exits refl)
          λ controller.
            if_elim MainOutcome
              (not (machine.create_vhost options.icu_port options.cert_path options.key_path))
              (λ closed. exits refl)
              λ icu. runs options _ variables refl accepted usable motor_is (record {
                session = session;
                storage = storage;
                context = context;
                before = server;
                started = refl;
              })

  set_up-MainOutcome :
      IsSession machine.session
      → (options : Options) (r : ℤ × Option (Motor W V)) → IsAccepted options
      → InitOutcome
          (machine.runtime options.model_path options.delegate_path)
          (machine.interpreter options.model_path options.delegate_path)
          (some options.delegate_path)
          r
      → MainOutcome (set_up machine options r)
  unfolding set_up
  set_up-MainOutcome session options (ret, none) accepted outcome = exits refl
  set_up-MainOutcome session options (ret, some motor) accepted (ready variables usable warm e) =
      if_elim MainOutcome (ltb_ℤ ret (pos 0) || ltb_ℤ (pos 0) ret) (λ failed. exits refl)
        λ zero.
          listen-MainOutcome session options accepted variables usable (statics motor _) _
            machine.create_context (length-replicate {A = ℕ} max_bridged_frame_len 0) cc
  set_up-MainOutcome session options (ret, some motor) accepted (unusable not_usable e) =
      rw e (exits refl)
  set_up-MainOutcome session options (ret, some motor) accepted (no_warm_up npu ran e) =
      rw e (exits refl)

  run_options-MainOutcome :
      IsSession machine.session
      → (o : Option Options) → Holding IsAccepted o
      → MainOutcome (run_options machine o)
  unfolding run_options
  run_options-MainOutcome session none h = exits refl
  run_options-MainOutcome session (some options) h = set_up-MainOutcome session options _ h (
      motor_inference_init-InitOutcome (machine.runtime options.model_path options.delegate_path)
        (machine.interpreter options.model_path options.delegate_path) (some options.delegate_path)
        none)

  -- On any command line, and whatever the machine answers, main ends with the status 1, or its service
  -- loop begins: with two ports in range, a certificate and its key or neither of them, a usable model
  -- that has just been set up, and the bridge in the state that bridge_server_start leaves. The storage
  -- of the session has the size the receiver asks for.
  pub main-MainOutcome :
      IsSession machine.session → (args : List Bytes) → MainOutcome (main {W = W} machine args)
  unfolding main
  main-MainOutcome session args =
      run_options-MainOutcome session (parse_arguments machine.atoi args)
        (parse_arguments-IsAccepted machine.atoi args)

  -- From the command line on: if main gets to its service loop, on a machine whose sessions have the size
  -- the receiver asks for, then after any sequence of callbacks the buffers have their sizes, the lengths
  -- lie within them, and no callback of the controller's side faults, for a double with IEEE 754's order.
  pub main-safe :
      ⦃s : Stdio W⦄
      → IsOrdered W
      → IsSession machine.session
      → (args : List Bytes) (options : Options) (r r' : Receiver W V) (received forward : W)
        (reason : ControllerReason)
      → main machine args ≡ inr (options, r)
      → Steps (machine.interpreter options.model_path options.delegate_path) machine.sysfs r r'
      → IsReceiver r'
        × (h : Handled W V) × (callback_controller
              (machine.interpreter options.model_path options.delegate_path)
              machine.sysfs
              received
              forward
              reason
              r'
            ≡ some h)
  main-safe laws session args options r r' received forward reason e steps =
      elim (main-MainOutcome session args) [
        | exits e' ↦ absurd cc
        | runs options' s variables e' accepted usable motor_is started ↦
            let same : s ≡ r = cc in
            Steps-safe laws (machine.interpreter options.model_path options.delegate_path)
              machine.sysfs r r' received forward reason (subst IsStarted same started) steps
      ]
