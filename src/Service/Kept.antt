-- ===== src/Service/Kept.antt =====
-- What every event keeps of the clients' side, for a relation between the state before, the messages that
-- have come whole, the outputs, and the state behind: it is enough that a message and a write keep it.
use mathlib.Core.Path.{subst}
use imx8mp_pipe_line_setup.Prelude.{
  ℕ, ◌≡◌, refl, ◌∙◌, inl, inr, Bool-cases, Option-cases, Bool, Option, none, some, List, [], ◌∷◌,
  ◌++◌, ltb, length, Bytes, ◌>>=◌,
}
use imx8mp_pipe_line_setup.Double.{Double, Libm, Stdio, IsOrdered}
use imx8mp_pipe_line_setup.Motor.{Interpreter, Motor, MotorOut}
use imx8mp_pipe_line_setup.ClockOffset.{Samples, clock_offset_correct}
use imx8mp_pipe_line_setup.Gpio.{Sysfs}
use imx8mp_pipe_line_setup.Frame.Stamp.{Times}
use imx8mp_pipe_line_setup.Server.{
  IcuReason, established, server_writeable, closed, other, times_of,
}
use imx8mp_pipe_line_setup.Server.Plain.{
  Sender, Sent, view, sent_after, publish_text, send_text, forward_text,
}
use imx8mp_pipe_line_setup.Receiver
use imx8mp_pipe_line_setup.Receiver.{receive, max_controller_frame_len}
use imx8mp_pipe_line_setup.Service.{
  Event, signal, controller, icu, Output, write, wakes, Process, lws_service, current_epoch_seconds,
}
use imx8mp_pipe_line_setup.Service.Fragment.{IsProcess}
use imx8mp_pipe_line_setup.Service.{update}
use imx8mp_pipe_line_setup.Service.Refines.{lws_service-refines}
use imx8mp_pipe_line_setup.Service.Spec.{
  Spec, spec_of, spec_icu, delivered, spec_established, spec_forward, spec_receive, spec_step,
  spec_service,
}
use imx8mp_pipe_line_setup.Service.Messages.{
  Message, whole_of_text, text_left, whole_of, texts_after, whole_messages, texts_behind,
}
use imx8mp_pipe_line_setup.Frame.Stamp.Plain.{stamp_text}
use imx8mp_pipe_line_setup.Frame.Extract.{bridge_extract_joystick}
use imx8mp_pipe_line_setup.Server.{max_bridged_frame_len}
use imx8mp_pipe_line_setup.Receiver.Fragment.{received_so_far}

-- `R` from a state, by messages and outputs, to a state.
pub record IsKept {W V : Type 0} ⦃d : Double W⦄ ⦃s : Stdio W⦄ (known : ℕ)
    (R : Sender W V → List (Message W) → List Output → Sender W V → Type 0) : Type 0 where
  -- What is not a client's may change: the motor and the samples.
  pub still :
      (p q : Sender W V) → q.latest ≡ p.latest → q.stats ≡ p.stats → q.log ≡ p.log → R p [] [] q
  pub behind :
      (p q r : Sender W V) (ms ns : List (Message W)) (xs ys : List Output)
      → R p ms xs q
      → R q ns ys r
      → R p (ms ++ ns) (xs ++ ys) r
  pub written : (p : Sender W V) → R p [] (write p.latest ∷ []) p
  pub dropped :
      (message : Message W) (p : Sender W V)
      → stamp_text message.raw message.received message.forward max_bridged_frame_len ≡ none
      → R p (message ∷ []) [] p
  pub published :
      (message : Message W) (motor_out : Option (MotorOut W)) (body : Bytes)
      (times : Option (Times W)) (p : Sender W V) (kept : W × Samples W)
      → p.protocol ≡ some known
      → stamp_text message.raw message.received message.forward max_bridged_frame_len
        ≡ some (body, times)
      → let sent =
          sent_after
            (bridge_extract_joystick message.raw)
            motor_out
            (times_of times)
            message.received
            body
            p
            kept in
        R p (message ∷ []) (wakes sent.wake sent.sender.latest) sent.sender

module _ {W V : Type 0}
    (R : Sender W V → List (Message W) → List Output → Sender W V → Type 0) where
  -- A frame on its way: the clients' protocol stays.
  abbrev Announces : Sender W V → List (Message W) → Option (Sent W V) → Type 0
  Announces p ms none = Unit
  Announces p ms (some sent) =
      (sent.sender.protocol ≡ p.protocol) × R p ms (wakes sent.wake sent.sender.latest) sent.sender

  -- A step of the bridge, with the messages that it completes and the texts that it leaves.
  abbrev pub Follows :
      Spec W V → List (Message W) → (ℕ → Bytes) → Option (Spec W V × List Output) → Type 0
  Follows p ms texts none = Unit
  Follows p ms texts (some r) =
      (r.0.sender.protocol ≡ p.sender.protocol)
      × (r.0.messages ≡ texts)
      × R p.sender ms r.1 r.0.sender

module _ {W V : Type 0} ⦃d : Double W⦄ ⦃s : Stdio W⦄ (known : ℕ)
    (R : Sender W V → List (Message W) → List Output → Sender W V → Type 0)
    (k : IsKept known R) where
  -- A step and the steps behind it.
  Follows-step :
      (p : Spec W V) (ms ns : List (Message W)) (texts texts' : ℕ → Bytes)
      (o : Option (Spec W V × List Output)) (run : Spec W V → Option (Spec W V × List Output))
      → Follows R p ms texts o
      → ((q : Spec W V)
          → q.sender.protocol ≡ p.sender.protocol
          → q.messages ≡ texts
          → Follows R q ns texts' (run q))
      → Follows R p (ms ++ ns) texts' (o >>= λ r. run r.0 >>= λ r'. some (r'.0, r.1 ++ r'.1))
  Follows-step p ms ns texts texts' none run h later = tt
  Follows-step p ms ns texts texts' (some (q, outputs)) run h later = elim (Option-cases (run q)) [
    | inl fault ↦ rw fault tt
    | inr ((q', more), e) ↦
        let (same, left, kept) = h in
        let next = rw e at (later q same left) in
        let (same', left', kept') = next in
        rw e
          (same' ∙ same, left', k.behind p.sender q.sender q'.sender ms ns outputs more kept kept')
  ]

  still-same : (p : Sender W V) → R p [] [] p
  still-same p = k.still p p refl refl refl

  send_text-Announces :
      (message : Message W) (motor_out : Option (MotorOut W)) (motor : Motor W V) (p : Sender W V)
      (stamped : Option (Bytes × Option (Times W)))
      → p.protocol ≡ some known
      → stamp_text message.raw message.received message.forward max_bridged_frame_len ≡ stamped
      → Announces R p (message ∷ []) (
          send_text
            (bridge_extract_joystick message.raw)
            motor_out
            message.received
            stamped
            (record p { motor = motor }))
  unfolding send_text publish_text wakes
  send_text-Announces message motor_out motor p none e stamp =
      let q = record p { motor = motor } in
      (
        refl,
        k.behind p q q [] (message ∷ []) [] [] (k.still p q refl refl refl)
            (k.dropped message q stamp),
      )
  send_text-Announces message motor_out motor p (some (body, times)) e stamp =
      let q = record p { motor = motor } in
      elim (Option-cases
        (clock_offset_correct (times_of times).frame_transfer_time message.received p.samples)) [
          | inl fault ↦ rw fault tt
          | inr (kept, found) ↦ rw found (
            refl,
            k.behind p q _ [] (message ∷ []) [] _ (k.still p q refl refl refl)
                (k.published message motor_out body times q kept e stamp),
          )
        ]

module _ {W V : Type 0} ⦃d : Double W⦄ ⦃s : Stdio W⦄ ⦃m : Libm W⦄ (interpreter : Interpreter V)
    (sysfs : Sysfs) (known : ℕ)
    (R : Sender W V → List (Message W) → List Output → Sender W V → Type 0)
    (k : IsKept known R) where
  delivered-Follows :
      (connection : ℕ) (p : Spec W V) (message : Message W) (o : Option (Sent W V))
      → Announces R p.sender (message ∷ []) o
      → Follows R p
          (message ∷ [])
          (update p.messages connection [])
          (o >>= λ sent. some (delivered interpreter sysfs connection p sent))
  unfolding delivered
  delivered-Follows connection p message none h = tt
  delivered-Follows connection p message (some sent) h = (h.0, refl, h.1)

  spec_forward-Follows :
      (connection : ℕ) (message : Bytes) (received forward : W) (p : Spec W V)
      → p.sender.protocol ≡ some known
      → Follows R p
          (record { raw = message; received = received; forward = forward } ∷ [])
          (update p.messages connection [])
          (spec_forward interpreter sysfs connection message received forward p)
  unfolding spec_forward forward_text
  spec_forward-Follows connection message received forward p e =
      let whole : Message W = record { raw = message; received = received; forward = forward } in
      delivered-Follows connection p whole
        (forward_text interpreter message received forward p.sender)
        (send_text-Announces known R k whole _ _ p.sender _ e refl)

  spec_receive-Follows :
      (connection : ℕ) (final : Bool) (message : Bytes) (received forward : W) (p : Spec W V)
      → p.sender.protocol ≡ some known
      → Follows R p
          (whole_of_text final message received forward)
          (update p.messages connection (text_left final message))
          (spec_receive interpreter sysfs connection final message received forward p)
  unfolding spec_receive
  spec_receive-Follows connection final message received forward p e =
      elim (Bool-cases (ltb 512 (length message))) [
        | inl over ↦ rw over (refl, refl, still-same known R k p.sender)
        | inr under ↦ elim (Bool-cases final) [
          | inl last ↦
              rw (under, last) (spec_forward-Follows connection message received forward p e)
          | inr more ↦ rw (under, more) (refl, refl, still-same known R k p.sender)
        ]
      ]

  spec_icu-Follows :
      (protocol : ℕ) (reason : IcuReason) (p : Spec W V)
      → p.sender.protocol ≡ some known
      → Follows R p [] p.messages (some (spec_icu protocol reason p))
  unfolding spec_icu
  spec_icu-Follows protocol established p e = rw e (refl, refl, k.still _ _ refl refl refl)
  spec_icu-Follows protocol server_writeable p e =
      elim (Bool-cases (ltb 0 (length p.sender.latest))) [
        | inl full ↦ rw full (refl, refl, k.written p.sender)
        | inr empty ↦ rw empty (refl, refl, still-same known R k p.sender)
      ]
  spec_icu-Follows protocol closed p e = (refl, refl, still-same known R k p.sender)
  spec_icu-Follows protocol other p e = (refl, refl, still-same known R k p.sender)

  spec_step-Follows :
      (event : Event) (p : Spec W V)
      → p.sender.protocol ≡ some known
      → Follows R p
          (whole_of event p.messages)
          (texts_after event p.messages)
          (spec_step interpreter sysfs event p)
  unfolding spec_step spec_established
  spec_step-Follows signal p e = (refl, refl, still-same known R k p.sender)
  spec_step-Follows (controller connection received forward Receiver.established) p e = (
    refl,
    refl,
    k.still p.sender (spec_established interpreter sysfs connection p).sender refl refl refl,
  )
  spec_step-Follows (controller connection received forward (receive first final bytes)) p e =
      spec_receive-Follows connection final _ (current_epoch_seconds received)
        (current_epoch_seconds forward) p e
  spec_step-Follows (controller connection received forward Receiver.closed) p e =
      (refl, refl, still-same known R k p.sender)
  spec_step-Follows (controller connection received forward Receiver.other) p e =
      (refl, refl, still-same known R k p.sender)
  spec_step-Follows (icu protocol lws_write reason) p e = spec_icu-Follows protocol reason p e

  spec_service-Follows :
      (events : List Event) (p : Spec W V)
      → p.sender.protocol ≡ some known
      → Follows R p
          (whole_messages events p.messages)
          (texts_behind events p.messages)
          (spec_service interpreter sysfs events p)
  unfolding spec_service
  spec_service-Follows [] p e = (refl, refl, still-same known R k p.sender)
  spec_service-Follows (event ∷ events) p e =
      let texts = texts_after event p.messages in
      Follows-step known R k p (whole_of event p.messages) (whole_messages events texts) texts
        (texts_behind events texts) (spec_step interpreter sysfs event p)
        (spec_service interpreter sysfs events) (spec_step-Follows event p e)
        (λ q same left.
          subst
            (λ t.
              Follows R q (whole_messages events t) (texts_behind events t)
                (spec_service interpreter sysfs events q))
            left (spec_service-Follows events q (same ∙ e)))

  -- The events of one call of the library, by the code.
  pub lws_service-IsKept :
      IsOrdered W
      → (events : List Event) (p : Process W V) → IsProcess p
      → p.server.protocol ≡ some known
      → (r : Process W V × List Output) × (lws_service interpreter sysfs events p ≡ some r)
        × R
            (view p.server)
            (whole_messages events (λ connection. received_so_far (p.sessions connection)))
            r.1
            (view r.0.server)
  lws_service-IsKept laws events p i e =
      let (r, done, j, same) = lws_service-refines laws interpreter sysfs events p i in
      let texts : ℕ → Bytes = λ connection. received_so_far (p.sessions connection) in
      let followed =
        subst (Follows R (spec_of p) (whole_messages events texts) (texts_behind events texts)) same
          (spec_service-Follows events (spec_of p) e) in
      (r, done, followed.2)
