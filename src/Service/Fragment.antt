-- ===== src/Service/Fragment.antt =====
-- A fragment in the session of its connection, against the text of the specification.
use mathlib.Core.Path.{fun_ext}
use imx8mp_pipe_line_setup.Prelude.{
  ℕ, ◌+◌, ◌≡◌, refl, sym, ap, ◌∙◌, Bool, true, false, inl, inr, Option, some, List, [], ◌++◌, ◌==◌,
  arith, ltb, ltb→lt, ltb→le, Bool-cases, if◌then◌else◌, if_elim, length, take, Bytes, >>=-some,
  length-append, length-take,
}
use imx8mp_pipe_line_setup.Double.{Double, Libm, Stdio, IsOrdered}
use imx8mp_pipe_line_setup.Motor.{Interpreter}
use imx8mp_pipe_line_setup.Gpio.{Sysfs, gpio_toggle_set}
use imx8mp_pipe_line_setup.Server.{bridge_server_forward}
use imx8mp_pipe_line_setup.Server.Outcome.{IsServer}
use imx8mp_pipe_line_setup.Server.Plain.{view}
use imx8mp_pipe_line_setup.Server.Plain.Forward.{bridge_server_forward-text}
use imx8mp_pipe_line_setup.Receiver.{
  Session, Receiver, Handled, handled, max_controller_frame_len, forward_frame, append_fragment,
}
use imx8mp_pipe_line_setup.Receiver.Fragment.{
  IsSession, received_so_far, append_fragment-drops, append_fragment-fits,
}
use imx8mp_pipe_line_setup.Receiver.Safety.{IsReceiver}
use imx8mp_pipe_line_setup.Service.{Output, Process, update, receiver_of, stored, wakes, forwards}
use imx8mp_pipe_line_setup.Service.Spec.{Spec, spec_of, spec_forward, spec_receive}

-- Every buffer has its size, and every length lies within it.
pub record IsProcess {W V : Type 0} (p : Process W V) : Type 0 where
  pub sessions : (connection : ℕ) → IsSession (p.sessions connection)
  pub server : IsServer p.server

pub update-messages :
    (sessions : ℕ → Session) (connection : ℕ) (session : Session) (message : Bytes)
    → received_so_far session ≡ message
    → ◌≡◌ {A = ℕ → Bytes}
        (λ k. received_so_far (update sessions connection session k))
        (update (λ k. received_so_far (sessions k)) connection message)
update-messages sessions connection session message e = fun_ext λ k.
    elim (Bool-cases (k == connection)) [ inl here ↦ rw here e | inr elsewhere ↦ rw elsewhere refl ]

module _ {W V : Type 0} where
  pub stored-IsProcess :
      (connection : ℕ) (r : Receiver W V) (p : Process W V)
      → IsProcess p
      → IsReceiver r
      → IsProcess (stored connection r p)
  stored-IsProcess connection r p i j = record {
    sessions =
        λ k. if_elim IsSession (k == connection) (λ here. j.session) λ elsewhere. i.sessions k;
    server = j.server;
  }

module _ {W V : Type 0} ⦃d : Double W⦄ ⦃s : Stdio W⦄ ⦃m : Libm W⦄ (laws : IsOrdered W)
    (interpreter : Interpreter V) (sysfs : Sysfs) where
  -- One fragment, behind what the connection's session holds when it comes.
  module _ (connection : ℕ) (received forward : W) (p : Process W V) (i : IsProcess p)
      (bytes : Bytes) (begun : Session) (j : IsSession begun) where
    abbrev pub message : Bytes
    message = received_so_far begun ++ bytes

    length-message : length message ≡ begun.len + length bytes
    length-message = omega (
      arith,
      length-append (received_so_far begun) bytes,
      length-take begun.len begun.buf,
      j.storage,
      j.within,
    )

    abbrev pub Refines : Bool → Type 0
    Refines final =
        (h : Handled W V) × (append_fragment interpreter sysfs final bytes received forward
            (record (receiver_of connection p) { session = begun })
          ≡ some h)
        × IsReceiver h.receiver
        × (spec_receive interpreter sysfs connection final message received forward (spec_of p)
            ≡ some (spec_of (stored connection h.receiver p), forwards h.forwarded))

    -- Storing a session that holds a text, with nothing else changed.
    messages-path :
        (session : Session) (text : Bytes)
        → received_so_far session ≡ text
        → ◌≡◌ {A = Option (Spec W V × List Output)}
            (some
              (record (spec_of p) { messages = update (spec_of p).messages connection text }, []))
            (some (spec_of (record p { sessions = update p.sessions connection session }), []))
    messages-path session text e =
        ap {A = ℕ → Bytes} (λ messages. some (record (spec_of p) { messages = messages }, []))
          (sym (update-messages p.sessions connection session text e))

    forward_frame-refines :
        (session : Session)
        → received_so_far session ≡ message
        → IsSession session
        → (h : Handled W V) × (forward_frame interpreter sysfs received forward
              (record (receiver_of connection p) { session = session })
            ≡ some h)
          × IsReceiver h.receiver
          × (spec_forward interpreter sysfs connection message received forward (spec_of p)
              ≡ some (spec_of (stored connection h.receiver p), forwards h.forwarded))
    unfolding forward_frame spec_forward forwards
    forward_frame-refines session text_is k =
        let (f, done, l, same) =
          bridge_server_forward-text laws interpreter message received forward p.server i.server in
        (
          _,
          >>=-some _
              (ap (λ t. bridge_server_forward interpreter t received forward p.server) text_is
                ∙ done)
              refl,
          record { session = record { storage = k.storage; within = omega arith }; server = l },
          >>=-some _ same (
              ap {A = ℕ → Bytes}
                (λ messages. some (
                  record (spec_of p) {
                    messages = messages;
                    sender = view f.server;
                    gpio = gpio_toggle_set sysfs false (gpio_toggle_set sysfs true p.gpio);
                  },
                  wakes f.wake (take f.server.payload_len f.server.payload),
                ))
                (sym (update-messages p.sessions connection (record session { len = 0 }) [] refl))),
        )

    on_final :
        (final : Bool) (session : Session)
        → received_so_far session ≡ message
        → IsSession session
        → (h : Handled W V) × ((if final
              then forward_frame interpreter sysfs received forward
                  (record (receiver_of connection p) { session = session })
              else some (handled (record (receiver_of connection p) { session = session })))
            ≡ some h)
          × IsReceiver h.receiver
          × ((if final
                then spec_forward interpreter sysfs connection message received forward (spec_of p)
                else some (
                  record (spec_of p) { messages = update (spec_of p).messages connection message },
                  [],
                ))
              ≡ some (spec_of (stored connection h.receiver p), forwards h.forwarded))
    unfolding forwards
    on_final true session text_is k = forward_frame-refines session text_is k
    on_final false session text_is k = (
      handled (record (receiver_of connection p) { session = session }),
      refl,
      record { session = k; server = i.server },
      messages-path session message text_is,
    )

    pub append_fragment-Refines : (final : Bool) → Refines final
    unfolding spec_receive forwards
    append_fragment-Refines final =
        let size = length-message in
        elim (Bool-cases (ltb max_controller_frame_len (length message))) [
          | inl over ↦
              let dropped = record begun { len = 0 } in
              (
                handled (record (receiver_of connection p) { session = dropped }),
                append_fragment-drops interpreter sysfs final bytes received forward
                    (record (receiver_of connection p) { session = begun })
                    (omega (arith, ltb→lt _ _ over)),
                record {
                  session = record { storage = j.storage; within = omega arith };
                  server = i.server;
                },
                rw over (messages-path dropped [] refl),
              )
          | inr under ↦
              let (session, e, len_is, text_is, k) =
                append_fragment-fits interpreter sysfs final bytes received forward
                  (record (receiver_of connection p) { session = begun }) j
                  (omega (arith, ltb→le _ _ under)) in
              rw (under, e) (on_final final session text_is k)
        ]
