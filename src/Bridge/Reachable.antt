-- ===== src/Bridge/Reachable.antt =====
-- What holds in every state that the callbacks can reach.
use mathlib.Core.Path.{subst}
use imx8mp_pipe_line_setup.Prelude.{
  ℕ, ◌≡◌, refl, sym, ap, ◌∙◌, ◌⊎◌, inl, inr, Option, none, some, arith, ltb, Bool-cases,
  Option-cases, length, Bytes,
}
use imx8mp_pipe_line_setup.Prelude.Int.{ℤ}
use imx8mp_pipe_line_setup.Double.{Double, Libm, Stdio, IsOrdered}
use imx8mp_pipe_line_setup.Motor.{Interpreter, MotorOut}
use imx8mp_pipe_line_setup.Gpio.{Sysfs}
use imx8mp_pipe_line_setup.Server.{
  Server, Forwarded, IcuReason, established, server_writeable, closed, other, bridge_server_start,
  callback_icu, wake_of, bridge_server_forward, max_bridged_frame_len,
}
use imx8mp_pipe_line_setup.Server.Forward.{bridge_server_forward-ForwardOutcome}
use imx8mp_pipe_line_setup.Frame.Stamp.{Times}
use imx8mp_pipe_line_setup.Frame.Stamp.Outcome.{StampFails}
use imx8mp_pipe_line_setup.Server.Outcome.{ForwardOutcome, frame_dropped, frame_published}
use imx8mp_pipe_line_setup.Receiver.{Receiver, ControllerReason, Handled, callback_controller}
use imx8mp_pipe_line_setup.Receiver.Safety.{IsReceiver, callback_controller-IsReceiver}
use imx8mp_pipe_line_setup.Bridge.{Step, controller, icu, turn, Steps, done, step, IsStarted}

-- A callback of a client touches nothing but the protocol, and that only where it was not known.
callback_icu-server :
    {W V : Type 0} (protocol : ℕ) (lws_write : Bytes → ℤ) (reason : IcuReason) (server : Server W V)
    → let server' = (callback_icu protocol lws_write reason server).server in
      (server'.payload ≡ server.payload)
      × (server'.payload_len ≡ server.payload_len)
      × (server'.context ≡ server.context)
      × ((p : ℕ) → server.protocol ≡ some p → server'.protocol ≡ some p)
unfolding callback_icu
callback_icu-server protocol lws_write established server = elim (Option-cases server.protocol) [
  | inl unknown ↦ rw unknown (refl, refl, refl, λ p e. cc)
  | inr (known, e) ↦ rw e (refl, refl, refl, λ p k. k)
]
callback_icu-server protocol lws_write server_writeable server =
    elim (Bool-cases (ltb 0 server.payload_len)) [
      | inr empty ↦ rw empty (refl, refl, refl, λ p e. e)
      | inl full ↦ rw full (refl, refl, refl, λ p e. e)
    ]
callback_icu-server protocol lws_write closed server = (refl, refl, refl, λ p e. e)
callback_icu-server protocol lws_write other server = (refl, refl, refl, λ p e. e)

module _ {W V : Type 0} ⦃d : Double W⦄ ⦃s : Stdio W⦄ ⦃m : Libm W⦄ (laws : IsOrdered W)
    (interpreter : Interpreter V) (sysfs : Sysfs) where
  -- One step keeps the bounds and a known protocol.
  Step-IsReceiver :
      {r r' : Receiver W V}
      → Step interpreter sysfs r r'
      → IsReceiver r
      → IsReceiver r'
        × (r'.server.context ≡ r.server.context)
        × ((p : ℕ) → r.server.protocol ≡ some p → r'.server.protocol ≡ some p)
  Step-IsReceiver {r = r} {r' = r'} (controller received forward reason h e r_is) i =
      let (h', e', j, context_is, protocol_is) =
        callback_controller-IsReceiver laws interpreter sysfs received forward reason r i in
      let same : h ≡ h' = cc in
      let r_is' : r' ≡ h'.receiver = r_is ∙ ap (λ h. h.receiver) same in
      (
        subst IsReceiver (sym r_is') j,
        ap (λ r. r.server.context) r_is' ∙ context_is,
        λ p k. ap (λ r. r.server.protocol) r_is' ∙ protocol_is ∙ k,
      )
  Step-IsReceiver {r = r} (icu protocol lws_write reason r_is) i =
      let (payload_is, len_is, context_is, protocol_is) =
        callback_icu-server protocol lws_write reason r.server in
      (
        subst IsReceiver (sym r_is) (record {
          session = i.session;
          server = record {
            storage = ap length payload_is ∙ i.server.storage;
            within = omega (arith, len_is, i.server.within);
          };
        }),
        ap (λ r. r.server.context) r_is ∙ context_is,
        λ p k. ap (λ r. r.server.protocol) r_is ∙ protocol_is p k,
      )
  Step-IsReceiver (turn session j r_is) i = (
    subst IsReceiver (sym r_is) (record { session = j; server = i.server }),
    ap (λ r. r.server.context) r_is,
    λ p k. ap (λ r. r.server.protocol) r_is ∙ k,
  )

  Steps-IsReceiver :
      {r r' : Receiver W V}
      → Steps interpreter sysfs r r'
      → IsReceiver r
      → IsReceiver r'
        × (r'.server.context ≡ r.server.context)
        × ((p : ℕ) → r.server.protocol ≡ some p → r'.server.protocol ≡ some p)
  Steps-IsReceiver (done r_is) i = (
    subst IsReceiver (sym r_is) i,
    ap (λ r. r.server.context) r_is,
    λ p k. ap (λ r. r.server.protocol) r_is ∙ k,
  )
  Steps-IsReceiver (step between steps last) i =
      let (j, context_is, protocol_is) = Steps-IsReceiver steps i in
      let (k, context_is', protocol_is') = Step-IsReceiver last j in
      (k, context_is' ∙ context_is, λ p e. protocol_is' p (protocol_is p e))

  pub IsStarted-IsReceiver : (r : Receiver W V) → IsStarted r → IsReceiver r
  unfolding bridge_server_start
  IsStarted-IsReceiver r i = record {
    session = i.session;
    server = record {
      storage = i.storage;
      within = omega (arith, ap (λ s. s.payload_len) i.started);
    };
  }

  -- After any sequence of callbacks from the start, of clients and of controllers on any number of
  -- connections, the buffers have their sizes, 512 and 1024 bytes, the lengths lie within them, and no
  -- callback of the controller's side faults, for a double with IEEE 754's order.
  pub Steps-safe :
      (start r : Receiver W V) (received forward : W) (reason : ControllerReason)
      → IsStarted start
      → Steps interpreter sysfs start r
      → IsReceiver r
        × (h : Handled W V) × (callback_controller interpreter sysfs received forward reason r
            ≡ some h)
  Steps-safe start r received forward reason i steps =
      let (j, _, _) = Steps-IsReceiver steps (IsStarted-IsReceiver start i) in
      let (h, e, _, _, _) =
        callback_controller-IsReceiver laws interpreter sysfs received forward reason r j in
      (j, h, e)

  ForwardOutcome-wake :
      {raw_frame : Bytes} {received forward : W} {motor_out : Option (MotorOut W)}
      {server : Server W V} {f : Forwarded W V}
      → (context protocol : ℕ) → server.context ≡ some context
      → server.protocol ≡ some protocol
      → ForwardOutcome raw_frame received forward motor_out server f
      → ((times : Option (Times W)) × StampFails raw_frame received forward max_bridged_frame_len
            times
          × (f.wake ≡ none))
        ⊎ (f.wake ≡ some (some context, protocol))
  unfolding wake_of
  ForwardOutcome-wake context protocol c k (frame_dropped times why server_is report_is wake_is) =
      inl (times, why, wake_is)
  ForwardOutcome-wake context protocol c k (frame_published p) = inr (p.wake_is ∙ rw (c, k) refl)

  -- Once the context and the protocol of the clients are known, whatever callbacks follow, a frame that
  -- is forwarded asks for a write to the clients of that protocol unless it is dropped, for a double with
  -- IEEE 754's order.
  pub Steps-wake :
      (r r' : Receiver W V) (context protocol : ℕ) (raw_frame : Bytes) (received forward : W)
      → IsReceiver r
      → r.server.context ≡ some context
      → r.server.protocol ≡ some protocol
      → Steps interpreter sysfs r r'
      → (f : Forwarded W V) × (bridge_server_forward interpreter raw_frame received forward
            r'.server
          ≡ some f)
        × (((times : Option (Times W)) × StampFails raw_frame received forward max_bridged_frame_len
                times
              × (f.wake ≡ none))
            ⊎ (f.wake ≡ some (some context, protocol)))
  Steps-wake r r' context protocol raw_frame received forward i c k steps =
      let (j, context_is, protocol_is) = Steps-IsReceiver steps i in
      let (f, returned, _, forwarded) =
        bridge_server_forward-ForwardOutcome laws interpreter raw_frame received forward r'.server
          j.server in
      (
        f,
        returned,
        ForwardOutcome-wake context protocol (context_is ∙ c) (protocol_is protocol k) forwarded,
      )
