-- ===== src/Receiver/Safety.antt =====
-- No sequence of callbacks leaves the buffers, whatever the controllers send.
use imx8mp_pipe_line_setup.Prelude.{
  ◌+◌, ◌≡◌, refl, ap, Bool, true, false, inl, inr, Option, some, arith, ltb, ltb→le, ltb→lt, ◌∙◌,
  >>=-some, Bool-cases, if◌then◌else◌, length, take, Bytes,
}
use imx8mp_pipe_line_setup.Double.{Double, Libm, Stdio, IsOrdered}
use imx8mp_pipe_line_setup.Motor.{Interpreter, MotorOut}
use imx8mp_pipe_line_setup.Gpio.{Sysfs}
use imx8mp_pipe_line_setup.Server.{Server, Forwarded}
use imx8mp_pipe_line_setup.Server.Outcome.{IsServer, ForwardOutcome, frame_dropped, frame_published}
use imx8mp_pipe_line_setup.Server.Forward.{bridge_server_forward-ForwardOutcome}
use imx8mp_pipe_line_setup.Receiver.Fragment.{
  IsSession, append_fragment-drops, append_fragment-fits,
}
use imx8mp_pipe_line_setup.Receiver.{
  Session, Receiver, ControllerReason, established, receive, closed, other, Handled, handled,
  max_controller_frame_len, begin_message, start_session, forward_frame, append_fragment,
  callback_controller,
}

pub record IsReceiver {W V : Type 0} (r : Receiver W V) : Type 0 where
  pub session : IsSession r.session
  pub server : IsServer r.server

pub begin_message-IsSession :
    (first : Bool) (session : Session) → IsSession session → IsSession (begin_message first session)
unfolding begin_message
begin_message-IsSession true session i = record { storage = i.storage; within = omega arith }
begin_message-IsSession false session i = i

module _ {W V : Type 0} ⦃d : Double W⦄ ⦃s : Stdio W⦄ ⦃m : Libm W⦄ (laws : IsOrdered W)
    (interpreter : Interpreter V) (sysfs : Sysfs) (received forward : W) where
  -- A step that does not fault, keeps the bounds, and leaves alone what was noted of the clients.
  abbrev Safe : Receiver W V → Option (Handled W V) → Type 0
  Safe r o =
      (h : Handled W V) × (o ≡ some h)
      × IsReceiver h.receiver
      × (h.receiver.server.context ≡ r.server.context)
      × (h.receiver.server.protocol ≡ r.server.protocol)

  -- A forwarded frame changes neither the context nor the protocol.
  ForwardOutcome-client :
      {raw_frame : Bytes} {motor_out : Option (MotorOut W)} {server : Server W V}
      {f : Forwarded W V}
      → ForwardOutcome raw_frame received forward motor_out server f
      → (f.server.context ≡ server.context) × (f.server.protocol ≡ server.protocol)
  ForwardOutcome-client (frame_dropped times why server_is report_is wake_is) =
      (ap (λ s. s.context) server_is, ap (λ s. s.protocol) server_is)
  ForwardOutcome-client (frame_published p) = (p.context_is, p.protocol_is)

  forward_frame-IsReceiver :
      (r : Receiver W V)
      → IsReceiver r
      → Safe r (forward_frame interpreter sysfs received forward r)
  unfolding forward_frame
  forward_frame-IsReceiver r i =
      let (f, done, j, forwarded) =
        bridge_server_forward-ForwardOutcome laws interpreter (take r.session.len r.session.buf)
          received forward r.server i.server in
      (
        _,
        >>=-some _ done refl,
        record {
          session = record { storage = i.session.storage; within = omega arith };
          server = j;
        },
        (ForwardOutcome-client forwarded).0,
        (ForwardOutcome-client forwarded).1,
      )

  -- After the copy.
  appended-IsReceiver :
      (final : Bool) (r : Receiver W V)
      → IsReceiver r
      → Safe r
          (if final then forward_frame interpreter sysfs received forward r else some (handled r))
  appended-IsReceiver true r i = forward_frame-IsReceiver r i
  appended-IsReceiver false r i = (handled r, refl, i, refl, refl)

  append_fragment-IsReceiver :
      (final : Bool) (bytes : Bytes) (r : Receiver W V)
      → IsReceiver r
      → Safe r (append_fragment interpreter sysfs final bytes received forward r)
  append_fragment-IsReceiver final bytes r i =
      elim (Bool-cases (ltb max_controller_frame_len (r.session.len + length bytes))) [
        | inl over ↦ (
          handled (record r { session = record r.session { len = 0 } }),
          append_fragment-drops interpreter sysfs final bytes received forward r (ltb→lt _ _ over),
          record {
            session = record { storage = i.session.storage; within = omega arith };
            server = i.server;
          },
          refl,
          refl,
        )
        | inr under ↦
            let (session, e, _, _, j) =
              append_fragment-fits interpreter sysfs final bytes received forward r i.session
                (ltb→le _ _ under) in
            let (h, done, k, context_is, protocol_is) =
              appended-IsReceiver final (record r { session = session })
                (record { session = j; server = i.server }) in
            (h, e ∙ done, k, context_is, protocol_is)
      ]

  -- From a state whose buffers have their sizes and whose lengths lie within them, no callback of the
  -- controller's side faults, and each leaves such a state, for fragments of any length, first and final
  -- or not; what was noted of the clients stays. The double has IEEE 754's order.
  pub callback_controller-IsReceiver :
      (reason : ControllerReason) (r : Receiver W V)
      → IsReceiver r
      → (h : Handled W V) × (callback_controller interpreter sysfs received forward reason r
          ≡ some h)
        × IsReceiver h.receiver
        × (h.receiver.server.context ≡ r.server.context)
        × (h.receiver.server.protocol ≡ r.server.protocol)
  unfolding callback_controller start_session
  callback_controller-IsReceiver established r i = (
    _,
    refl,
    record {
      session = record { storage = i.session.storage; within = omega arith };
      server = record { storage = i.server.storage; within = i.server.within };
    },
    refl,
    refl,
  )
  callback_controller-IsReceiver (receive first final bytes) r i =
      append_fragment-IsReceiver final bytes _
        (record { session = begin_message-IsSession first r.session i.session; server = i.server })
  callback_controller-IsReceiver closed r i = (_, refl, i, refl, refl)
  callback_controller-IsReceiver other r i = (_, refl, i, refl, refl)
