-- ===== src/Bridge.antt =====
-- The two sides together, as libwebsockets runs them: src/bridge_server.cpp and src/controller_receiver.cpp
-- on one thread, whose callbacks come one at a time and in any order.
pub mod Reachable
use imx8mp_pipe_line_setup.Prelude.{ℕ, ◌≡◌, some, length, Bytes}
use imx8mp_pipe_line_setup.Prelude.Int.{ℤ}
use imx8mp_pipe_line_setup.Double.{Double, Libm, Stdio}
use imx8mp_pipe_line_setup.Motor.{Interpreter}
use imx8mp_pipe_line_setup.Gpio.{Sysfs}
use imx8mp_pipe_line_setup.Server.{
  Server, max_bridged_frame_len, IcuReason, bridge_server_start, callback_icu,
}
use imx8mp_pipe_line_setup.Receiver.{
  Session, Receiver, ControllerReason, Handled, callback_controller,
}
use imx8mp_pipe_line_setup.Receiver.Fragment.{IsSession}

module _ {W V : Type 0} ⦃d : Double W⦄ ⦃s : Stdio W⦄ ⦃m : Libm W⦄ (interpreter : Interpreter V)
    (sysfs : Sysfs) where
  -- One callback, or the library's turn to another connection of a controller, which has a session of its
  -- own.
  pub data Step (r : Receiver W V) : Receiver W V → Type 0 where
    controller :
        {r' : Receiver W V} (received forward : W) (reason : ControllerReason) (h : Handled W V)
        → callback_controller interpreter sysfs received forward reason r ≡ some h
        → r' ≡ h.receiver
        → Step r r'
    icu :
        {r' : Receiver W V} (protocol : ℕ) (lws_write : Bytes → ℤ) (reason : IcuReason)
        → r' ≡ record r { server = (callback_icu protocol lws_write reason r.server).server }
        → Step r r'
    turn :
        {r' : Receiver W V} (session : Session)
        → IsSession session
        → r' ≡ record r { session = session }
        → Step r r'

  -- Any number of steps.
  pub data Steps (r : Receiver W V) : Receiver W V → Type 0 where
    done : {r' : Receiver W V} → r' ≡ r → Steps r r'
    step :
        {r' : Receiver W V} (between : Receiver W V)
        → Steps r between
        → Step between r'
        → Steps r r'

-- The state after `bridge_server_start`, with static storage of the declared size.
pub record IsStarted {W V : Type 0} (r : Receiver W V) : Type 0 where
  pub session : IsSession r.session
  pub storage : length r.server.payload ≡ max_bridged_frame_len
  pub context : ℕ
  pub before : Server W V
  pub started : r.server ≡ bridge_server_start context before
