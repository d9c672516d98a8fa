-- ===== src/Receiver.antt =====
-- src/controller_receiver.cpp: the controller-facing side, which puts the fragments of a message together
-- and hands the whole frame to the ICU-facing side.
pub mod Fragment
pub mod Safety
pub mod Message
use imx8mp_pipe_line_setup.Prelude.{
  ℕ, ◌+◌, Bool, true, false, Option, none, some, ltb, if◌then◌else◌, length, take, Bytes, ◌>>=◌,
}
use imx8mp_pipe_line_setup.Memory.{memcpy}
use imx8mp_pipe_line_setup.Double.{Double, Libm, Stdio}
use imx8mp_pipe_line_setup.Motor.{Interpreter, motor_inference_reset}
use imx8mp_pipe_line_setup.ClockOffset.{clock_offset_reset}
use imx8mp_pipe_line_setup.Gpio.{Sysfs, Gpio, gpio_toggle_set}
use imx8mp_pipe_line_setup.Server.{Server, Forwarded, bridge_server_forward}

abbrev pub max_controller_frame_len : ℕ
max_controller_frame_len = 512

-- `controller_session_t`.
pub record Session : Type 0 where
  pub buf : Bytes
  pub len : ℕ

-- The session of the connection that is being served, and the statics behind it.
pub record Receiver (W V : Type 0) : Type 0 where
  pub session : Session
  pub server : Server W V
  pub gpio : Gpio

-- The reasons that `callback_controller` tells apart. A fragment comes with `lws_is_first_fragment`,
-- `lws_is_final_fragment` and its bytes.
pub data ControllerReason : Type 0 where
  established : ControllerReason
  receive : Bool → Bool → Bytes → ControllerReason
  closed : ControllerReason
  other : ControllerReason

-- The state afterwards, and what `bridge_server_forward` did if it was called. Every call returns 0.
pub record Handled (W V : Type 0) : Type 0 where
  pub receiver : Receiver W V
  pub forwarded : Option (Forwarded W V)

abbrev pub handled : {W V : Type 0} → Receiver W V → Handled W V
handled receiver = record { receiver = receiver; forwarded = none }

unfoldable pub begin_message : Bool → Session → Session
begin_message first session = if first then record session { len = 0 } else session

module _ {W V : Type 0} ⦃d : Double W⦄ ⦃s : Stdio W⦄ ⦃m : Libm W⦄ (interpreter : Interpreter V)
    (sysfs : Sysfs) where
  unfoldable pub start_session : Receiver W V → Receiver W V
  start_session r = record r {
    session = record r.session { len = 0 };
    server = record r.server {
      motor = motor_inference_reset interpreter r.server.motor;
      samples = clock_offset_reset r.server.samples;
    };
  }

  -- The branch on the final fragment, with the readings of the clock at its start and in
  -- `bridge_server_forward`.
  unfoldable pub forward_frame : W → W → Receiver W V → Option (Handled W V)
  forward_frame received_ntp_time forward_ntp_time r =
      let on = gpio_toggle_set sysfs true r.gpio in
      (do
        f ←
            bridge_server_forward interpreter (take r.session.len r.session.buf) received_ntp_time
              forward_ntp_time r.server
        some (record {
          receiver = record {
            session = record r.session { len = 0 };
            server = f.server;
            gpio = gpio_toggle_set sysfs false on;
          };
          forwarded = some f;
        }))

  -- A fragment, from the check of its size on.
  pub append_fragment : Bool → Bytes → W → W → Receiver W V → Option (Handled W V)
  unfolding forward_frame
  append_fragment final bytes received_ntp_time forward_ntp_time r =
      if ltb max_controller_frame_len (r.session.len + length bytes)
      then some (handled (record r { session = record r.session { len = 0 } }))
      else (do
        copied ← memcpy r.session.buf r.session.len bytes (length bytes)
        (let r' = record r {
          session = record { buf = copied; len = r.session.len + length bytes };
        } in
            if final
            then forward_frame received_ntp_time forward_ntp_time r'
            else some (handled r')))

  -- A memory fault is `none`.
  unfoldable pub callback_controller :
      W → W → ControllerReason → Receiver W V → Option (Handled W V)
  unfolding start_session begin_message append_fragment
  callback_controller received_ntp_time forward_ntp_time established r =
      some (handled (start_session r))
  callback_controller received_ntp_time forward_ntp_time (receive first final bytes) r =
      append_fragment final bytes received_ntp_time forward_ntp_time
        (record r { session = begin_message first r.session })
  callback_controller received_ntp_time forward_ntp_time closed r = some (handled r)
  callback_controller received_ntp_time forward_ntp_time other r = some (handled r)
