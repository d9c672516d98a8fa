-- ===== src/Service/Refines.antt =====
-- The bridge against its specification without buffers.
use mathlib.Core.Path.{fun_ext}
use imx8mp_pipe_line_setup.Prelude.{
  ℕ, ◌≡◌, refl, sym, ap, Bool, true, false, inl, inr, Option, some, List, [], ◌∷◌, ◌++◌, ◌==◌,
  ==_iff, arith, ltb, Bool-cases, Option-cases, if◌then◌else◌, length, take, Bytes, >>=-some,
  length-take,
}
use imx8mp_pipe_line_setup.Prelude.Int.{ℤ}
use imx8mp_pipe_line_setup.Double.{Double, Libm, Stdio, IsOrdered}
use imx8mp_pipe_line_setup.Motor.{Interpreter}
use imx8mp_pipe_line_setup.Gpio.{Sysfs}
use imx8mp_pipe_line_setup.Server.{
  IcuReason, established, server_writeable, closed, other, callback_icu,
}
use imx8mp_pipe_line_setup.Receiver
use imx8mp_pipe_line_setup.Receiver.{
  Session, Receiver, ControllerReason, receive, Handled, handled, max_controller_frame_len,
  begin_message, start_session, forward_frame, append_fragment, callback_controller,
}
use imx8mp_pipe_line_setup.Receiver.Fragment.{received_so_far}
use imx8mp_pipe_line_setup.Receiver.Safety.{IsReceiver, begin_message-IsSession}
use imx8mp_pipe_line_setup.Service.Fragment.{
  IsProcess, stored-IsProcess, update-messages, append_fragment-Refines,
}
use imx8mp_pipe_line_setup.Service.{
  Event, signal, controller, icu, Output, Process, update, receiver_of, stored, forwards, dispatch,
  lws_service, current_epoch_seconds,
}
use imx8mp_pipe_line_setup.Service.Spec.{
  Spec, spec_of, spec_established, spec_receive, spec_icu, spec_step, spec_service,
}

update_same {ℓ} : {A : Type ℓ} (f : ℕ → A) (k : ℕ) → update f k (f k) ≡ f
update_same f k = fun_ext λ j. elim (Bool-cases (j == k)) [
  | inl here ↦ rw here (ap f (sym ((==_iff j k).0 here)))
  | inr elsewhere ↦ rw elsewhere refl
]

module _ {W V : Type 0} ⦃d : Double W⦄ ⦃s : Stdio W⦄ ⦃m : Libm W⦄ (laws : IsOrdered W)
    (interpreter : Interpreter V) (sysfs : Sysfs) where
  -- A step that does not fault, keeps the bounds, and does what the specification does.
  abbrev pub Simulates :
      Process W V → Option (Process W V × List Output) → Option (Spec W V × List Output) → Type 0
  Simulates p o q =
      (r : Process W V × List Output) × (o ≡ some r) × IsProcess r.0 × (q ≡ some (spec_of r.0, r.1))

  so_far-begun :
      (first : Bool) (session : Session)
      → (if first then [] else received_so_far session)
        ≡ received_so_far (begin_message first session)
  unfolding begin_message
  so_far-begun true session = refl
  so_far-begun false session = refl

  receive-refines :
      (connection : ℕ) (received forward : W) (first final : Bool) (bytes : Bytes) (p : Process W V)
      → IsProcess p
      → (h : Handled W V) × (callback_controller interpreter sysfs received forward
            (receive first final bytes)
            (receiver_of connection p)
          ≡ some h)
        × IsReceiver h.receiver
        × (spec_receive interpreter sysfs connection final
              ((if first then [] else received_so_far (p.sessions connection)) ++ bytes)
              received
              forward
              (spec_of p)
            ≡ some (spec_of (stored connection h.receiver p), forwards h.forwarded))
  unfolding callback_controller
  receive-refines connection received forward first final bytes p i =
      let session = p.sessions connection in
      rw (so_far-begun first session) (
        append_fragment-Refines laws interpreter sysfs connection received forward p i bytes
          (begin_message first session)
          (begin_message-IsSession first session (i.sessions connection)) final)

  icu-refines :
      (protocol : ℕ) (lws_write : Bytes → ℤ) (reason : IcuReason) (p : Process W V)
      → IsProcess p
      → Simulates p
          (dispatch interpreter sysfs (icu protocol lws_write reason) p)
          (some (spec_icu protocol reason (spec_of p)))
  unfolding dispatch spec_icu callback_icu
  icu-refines protocol lws_write established p i = elim (Option-cases p.server.protocol) [
    | inl unknown ↦ rw unknown (
      _,
      refl,
      record {
        sessions = i.sessions;
        server = record { storage = i.server.storage; within = i.server.within };
      },
      refl,
    )
    | inr (known, e) ↦ rw e (
      _,
      refl,
      record {
        sessions = i.sessions;
        server = record { storage = i.server.storage; within = i.server.within };
      },
      refl,
    )
  ]
  icu-refines protocol lws_write server_writeable p i =
      let latest = take p.server.payload_len p.server.payload in
      let size : length latest ≡ p.server.payload_len = omega (
        arith,
        length-take p.server.payload_len p.server.payload,
        i.server.storage,
        i.server.within,
      ) in
      elim (Bool-cases (ltb 0 p.server.payload_len)) [
        | inl full ↦ rw (size, full) (_, refl, i, refl)
        | inr empty ↦ rw (size, empty) (_, refl, i, refl)
      ]
  icu-refines protocol lws_write closed p i = (_, refl, i, refl)
  icu-refines protocol lws_write other p i = (_, refl, i, refl)

  -- A callback that changes nothing.
  unchanged :
      (connection : ℕ) (p : Process W V)
      → IsProcess p
      → Simulates p
          (some (stored connection (receiver_of connection p) p, []))
          (some (spec_of p, []))
  unchanged connection p i = (
    _,
    refl,
    stored-IsProcess connection (receiver_of connection p) p i
        (record { session = i.sessions connection; server = i.server }),
    ap {A = ℕ → Session} (λ sessions. some (spec_of (record p { sessions = sessions }), []))
        (sym (update_same p.sessions connection)),
  )

  -- One event.
  pub dispatch-refines :
      (event : Event) (p : Process W V)
      → IsProcess p
      → Simulates p
          (dispatch interpreter sysfs event p)
          (spec_step interpreter sysfs event (spec_of p))
  unfolding dispatch spec_step callback_controller
  dispatch-refines signal p i = (_, refl, record { sessions = i.sessions; server = i.server }, refl)
  dispatch-refines (controller connection received forward Receiver.established) p i =
      let session = p.sessions connection in
      (
        _,
        refl,
        stored-IsProcess connection (start_session interpreter sysfs (receiver_of connection p)) p i
            (record {
              session = record { storage = (i.sessions connection).storage; within = omega arith };
              server = record { storage = i.server.storage; within = i.server.within };
            }),
        ap {A = ℕ → Bytes}
            (λ messages. some (
              record (spec_established interpreter sysfs connection (spec_of p)) {
                messages = messages;
              },
              [],
            ))
            (sym (update-messages p.sessions connection (record session { len = 0 }) [] refl)),
      )
  dispatch-refines (controller connection received forward (receive first final bytes)) p i =
      let (h, done, j, same) =
        receive-refines connection (current_epoch_seconds received) (current_epoch_seconds forward)
          first final bytes p i in
      (_, >>=-some _ done refl, stored-IsProcess connection h.receiver p i j, same)
  dispatch-refines (controller connection received forward Receiver.closed) p i =
      unchanged connection p i
  dispatch-refines (controller connection received forward Receiver.other) p i =
      unchanged connection p i
  dispatch-refines (icu protocol lws_write reason) p i = icu-refines protocol lws_write reason p i

  -- Whatever signals and callbacks come, of clients and of controllers on any connections, the process
  -- does not fault, keeps its buffers' sizes, and has the outputs and the next state of a specification
  -- that knows no buffers: it has one text for each connection, which fragments are appended to and which
  -- is dropped where it exceeds 512 bytes, and the latest text for the clients. The buffers have their
  -- sizes before, and the double has IEEE 754's order.
  pub lws_service-refines :
      (events : List Event) (p : Process W V)
      → IsProcess p
      → Simulates p
          (lws_service interpreter sysfs events p)
          (spec_service interpreter sysfs events (spec_of p))
  unfolding lws_service spec_service
  lws_service-refines [] p i = (_, refl, i, refl)
  lws_service-refines (event ∷ events) p i =
      let ((p', outputs), done, j, same) = dispatch-refines event p i in
      let ((p'', later), done', k, same') = lws_service-refines events p' j in
      (
        (p'', outputs ++ later),
        >>=-some _ done (>>=-some _ done' refl),
        k,
        >>=-some _ same (>>=-some _ same' refl),
      )
