-- ===== src/Service/Sessions.antt =====
-- A new session of a controller sees nothing of those before it.
use mathlib.Core.Path.{subst}
use imx8mp_pipe_line_setup.Prelude.{
  ℕ, ◌≡◌, refl, sym, ap, ◌∙◌, Bool, Option, some, List, [], ◌∷◌, ◌++◌, map, if◌then◌else◌, Bytes,
}
use imx8mp_pipe_line_setup.Double.{Double, Libm, Stdio, IsOrdered}
use imx8mp_pipe_line_setup.Motor.{Interpreter}
use imx8mp_pipe_line_setup.Motor.Same.{SameStages}
use imx8mp_pipe_line_setup.Motor.Session.{ForgetsVariables, reset-SameSession}
use imx8mp_pipe_line_setup.Gpio.{Sysfs}
use imx8mp_pipe_line_setup.Server.Plain.{Sender, view}
use imx8mp_pipe_line_setup.Receiver
use imx8mp_pipe_line_setup.Receiver.{receive, max_controller_frame_len}
use imx8mp_pipe_line_setup.Service.{
  Timespec, Event, controller, Output, Process, lws_service, current_epoch_seconds,
}
use imx8mp_pipe_line_setup.Service.Fragment.{IsProcess}
use imx8mp_pipe_line_setup.Service.Same.{
  SameSpec, SameStep, set_message-same, spec_receive-same, step-same,
}
use imx8mp_pipe_line_setup.Service.Refines.{lws_service-refines}
use imx8mp_pipe_line_setup.Service.Spec.{
  Spec, spec_of, spec_established, spec_receive, spec_step, spec_service,
}

-- One fragment as it comes, with the readings of the clock.
pub record Fragment : Type 0 where
  pub first : Bool
  pub final : Bool
  pub bytes : Bytes
  pub received : Timespec
  pub forward : Timespec

abbrev pub fragment_event : ℕ → Fragment → Event
fragment_event connection f =
    controller connection f.received f.forward (receive f.first f.final f.bytes)

-- A connection and all the fragments that come on it.
abbrev pub session_events : ℕ → Timespec → Timespec → List Fragment → List Event
session_events connection received forward fragments =
    controller connection received forward Receiver.established
    ∷ map (fragment_event connection) fragments

-- Two states that differ in anything but the clients and the form of the model.
pub record Comparable {W V : Type 0} (p q : Sender W V) : Type 0 where
  pub context : p.context ≡ q.context
  pub protocol : p.protocol ≡ q.protocol
  pub seq_len : p.motor.history.seq_len ≡ q.motor.history.seq_len
  pub anchor_distance : p.motor.history.anchor_distance ≡ q.motor.history.anchor_distance
  pub stages : SameStages p.motor.lpf q.motor.lpf

module _ {W V : Type 0} ⦃d : Double W⦄ ⦃s : Stdio W⦄ ⦃m : Libm W⦄ (interpreter : Interpreter V)
    (sysfs : Sysfs) (connection : ℕ) where
  fragment-same :
      (f : Fragment) (p q : Spec W V)
      → SameSpec connection p q
      → SameStep connection
          (spec_step interpreter sysfs (fragment_event connection f) p)
          (spec_step interpreter sysfs (fragment_event connection f) q)
  unfolding spec_step
  fragment-same f p q same =
      subst
        (λ message.
          SameStep connection
            (spec_receive interpreter sysfs connection f.final
              ((if f.first then [] else p.messages connection) ++ f.bytes)
              (current_epoch_seconds f.received) (current_epoch_seconds f.forward) p)
            (spec_receive interpreter sysfs connection f.final
              ((if f.first then [] else message) ++ f.bytes) (current_epoch_seconds f.received)
              (current_epoch_seconds f.forward) q))
        same.message
        (spec_receive-same interpreter sysfs connection f.final
          ((if f.first then [] else p.messages connection) ++ f.bytes)
          (current_epoch_seconds f.received) (current_epoch_seconds f.forward) p q same)

  fragments-same :
      (fragments : List Fragment) (p q : Spec W V)
      → SameSpec connection p q
      → SameStep connection
          (spec_service interpreter sysfs (map (fragment_event connection) fragments) p)
          (spec_service interpreter sysfs (map (fragment_event connection) fragments) q)
  unfolding spec_service
  fragments-same [] p q same = (same, refl)
  fragments-same (f ∷ fragments) p q same =
      step-same connection (spec_step interpreter sysfs (fragment_event connection f) p)
        (spec_step interpreter sysfs (fragment_event connection f) q)
        (spec_service interpreter sysfs (map (fragment_event connection) fragments))
        (spec_service interpreter sysfs (map (fragment_event connection) fragments))
        (fragments-same fragments) (fragment-same f p q same)

  established-same :
      (p q : Spec W V)
      → ForgetsVariables interpreter
      → Comparable p.sender q.sender
      → SameSpec connection
          (spec_established interpreter sysfs connection p)
          (spec_established interpreter sysfs connection q)
  unfolding spec_established
  established-same p q forgets c =
      set_message-same connection [] p q (spec_established interpreter sysfs connection p)
        (spec_established interpreter sysfs connection q) refl refl
        (record {
          context = c.context;
          protocol = c.protocol;
          motor =
              reset-SameSession interpreter p.sender.motor q.sender.motor forgets c.seq_len
                c.anchor_distance c.stages;
          samples = refl;
        })

  session-same :
      (received forward : Timespec) (fragments : List Fragment) (p q : Spec W V)
      → ForgetsVariables interpreter
      → Comparable p.sender q.sender
      → let events = session_events connection received forward fragments in
        SameStep connection
          (spec_service interpreter sysfs events p)
          (spec_service interpreter sysfs events q)
  unfolding spec_service spec_step
  session-same received forward fragments p q forgets c =
      step-same connection (some (spec_established interpreter sysfs connection p, []))
        (some (spec_established interpreter sysfs connection q, []))
        (spec_service interpreter sysfs (map (fragment_event connection) fragments))
        (spec_service interpreter sysfs (map (fragment_event connection) fragments))
        (fragments-same fragments) (established-same p q forgets c, refl)

  same_outputs :
      (o o' : Option (Spec W V × List Output)) (r r' : Spec W V × List Output)
      → o ≡ some r
      → o' ≡ some r'
      → SameStep connection o o'
      → r.1 ≡ r'.1
  same_outputs o o' r r' e e' same =
      (subst (λ t. SameStep connection t (some r')) e
        (subst (λ t. SameStep connection o t) e' same)).1

  -- A session of a controller, from its connection on with all fragments that come on it, gives the same
  -- output, every announced payload and in the same order, from two states of the process that may differ
  -- in all that earlier sessions have left: the history, the filter's values, the interpreter's
  -- variables, the samples of the clock offset, the payload, the statistics, the log and the texts begun.
  -- The states have the same context and client protocol, window length, anchor distance and filter
  -- stages, their buffers have their sizes, the interpreter's reset of its variables does not depend on
  -- what they were, no other callback comes in between, and the double has IEEE 754's order.
  pub session-independent :
      IsOrdered W
      → (received forward : Timespec) (fragments : List Fragment) (p q : Process W V)
      → ForgetsVariables interpreter
      → IsProcess p
      → IsProcess q
      → Comparable (view p.server) (view q.server)
      → let events = session_events connection received forward fragments in
        (p' : Process W V) × (q' : Process W V) × (outputs : List Output) × (lws_service interpreter
            sysfs events p
          ≡ some (p', outputs))
        × (lws_service interpreter sysfs events q ≡ some (q', outputs))
  session-independent laws received forward fragments p q forgets i j c =
      let events = session_events connection received forward fragments in
      let ((p', outputs), done, _, e) = lws_service-refines laws interpreter sysfs events p i in
      let ((q', outputs'), done', _, e') = lws_service-refines laws interpreter sysfs events q j in
      let same =
        same_outputs (spec_service interpreter sysfs events (spec_of p))
          (spec_service interpreter sysfs events (spec_of q)) (spec_of p', outputs)
          (spec_of q', outputs') e e'
          (session-same received forward fragments (spec_of p) (spec_of q) forgets c) in
      (p', q', outputs, done, done' ∙ ap (λ o. some (q', o)) (sym same))
