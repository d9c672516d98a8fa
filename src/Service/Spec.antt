-- ===== src/Service/Spec.antt =====
-- What the bridge does, without its buffers: the text received on each connection of a controller, and the
-- text of the last published frame.
use imx8mp_pipe_line_setup.Prelude.{
  ℕ, Bool, true, false, Option, none, some, List, [], ◌∷◌, ◌++◌, ltb, if◌then◌else◌, length, Bytes,
  ◌>>=◌,
}
use imx8mp_pipe_line_setup.Double.{Double, Libm, Stdio}
use imx8mp_pipe_line_setup.Motor.{Interpreter, motor_inference_reset}
use imx8mp_pipe_line_setup.Gpio.{Sysfs, Gpio, gpio_toggle_set}
use imx8mp_pipe_line_setup.Server.{IcuReason, established, server_writeable, closed, other}
use imx8mp_pipe_line_setup.Server.Plain.{Sender, Sent, view, forward_text}
use imx8mp_pipe_line_setup.Receiver
use imx8mp_pipe_line_setup.Receiver.{ControllerReason, receive, max_controller_frame_len}
use imx8mp_pipe_line_setup.Receiver.Fragment.{received_so_far}
use imx8mp_pipe_line_setup.Service.{
  Event, signal, controller, icu, Output, write, Process, update, wakes, current_epoch_seconds,
}

pub record Spec (W V : Type 0) : Type 0 where
  pub messages : ℕ → Bytes
  pub sender : Sender W V
  pub gpio : Gpio
  pub running : Bool

-- The state of the bridge without its buffers.
abbrev pub spec_of : {W V : Type 0} → Process W V → Spec W V
spec_of p = record {
  messages = λ connection. received_so_far (p.sessions connection);
  sender = view p.server;
  gpio = p.gpio;
  running = p.running;
}

-- The first client's protocol is kept; a client that can be written to gets the last published text.
unfoldable pub spec_icu : {W V : Type 0} → ℕ → IcuReason → Spec W V → Spec W V × List Output
spec_icu protocol established p = elim p.sender.protocol [
  | none ↦ (record p { sender = record p.sender { protocol = some protocol } }, [])
  | some known ↦ (p, [])
]
spec_icu protocol server_writeable p =
    if ltb 0 (length p.sender.latest) then (p, write p.sender.latest ∷ []) else (p, [])
spec_icu protocol closed p = (p, [])
spec_icu protocol other p = (p, [])

module _ {W V : Type 0} ⦃d : Double W⦄ ⦃s : Stdio W⦄ ⦃m : Libm W⦄ (interpreter : Interpreter V)
    (sysfs : Sysfs) where
  -- A new session: no text, no trajectory and no samples of the clocks.
  unfoldable pub spec_established : ℕ → Spec W V → Spec W V
  spec_established connection p = record p {
    messages = update p.messages connection [];
    sender = record p.sender {
      motor = motor_inference_reset interpreter p.sender.motor;
      samples = [];
    };
  }

  -- After a frame that was sent between the edges of the marker: the connection's text is empty.
  unfoldable pub delivered : ℕ → Spec W V → Sent W V → Spec W V × List Output
  delivered connection p sent = (
    record p {
      messages = update p.messages connection [];
      sender = sent.sender;
      gpio = gpio_toggle_set sysfs false (gpio_toggle_set sysfs true p.gpio);
    },
    wakes sent.wake sent.sender.latest,
  )

  -- A whole message is forwarded.
  unfoldable pub spec_forward : ℕ → Bytes → W → W → Spec W V → Option (Spec W V × List Output)
  unfolding delivered
  spec_forward connection message received forward p = do
    sent ← forward_text interpreter message received forward p.sender
    some (delivered connection p sent)

  -- A fragment behind the text so far. What is over 512 bytes empties the connection's text.
  unfoldable pub spec_receive :
      ℕ → Bool → Bytes → W → W → Spec W V → Option (Spec W V × List Output)
  unfolding spec_forward
  spec_receive connection final message received forward p =
      if ltb max_controller_frame_len (length message)
      then some (record p { messages = update p.messages connection [] }, [])
      else if final
      then spec_forward connection message received forward p
      else some (record p { messages = update p.messages connection message }, [])

  unfoldable pub spec_step : Event → Spec W V → Option (Spec W V × List Output)
  unfolding spec_established spec_receive spec_icu
  spec_step signal p = some (record p { running = false }, [])
  spec_step (controller connection received forward Receiver.established) p =
      some (spec_established connection p, [])
  spec_step (controller connection received forward (receive first final bytes)) p =
      let so_far = if first then [] else p.messages connection in
      spec_receive connection final (so_far ++ bytes) (current_epoch_seconds received)
        (current_epoch_seconds forward) p
  spec_step (controller connection received forward Receiver.closed) p = some (p, [])
  spec_step (controller connection received forward Receiver.other) p = some (p, [])
  spec_step (icu protocol lws_write reason) p = some (spec_icu protocol reason p)

  unfoldable pub spec_service : List Event → Spec W V → Option (Spec W V × List Output)
  unfolding spec_step
  spec_service [] p = some (p, [])
  spec_service (event ∷ events) p = do
    (p', outputs) ← spec_step event p
    (p'', later) ← spec_service events p'
    some (p'', outputs ++ later)
