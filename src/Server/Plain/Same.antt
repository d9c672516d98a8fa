-- ===== src/Server/Plain/Same.antt =====
-- States of the server from which a frame is sent alike, whatever was sent before.
use mathlib.Core.Path.{subst}
use imx8mp_pipe_line_setup.Prelude.{ℕ, ◌≡◌, refl, ap, Option, none, some, Bytes, ◌>>=◌}
use imx8mp_pipe_line_setup.Double.{Double, Libm, Stdio}
use imx8mp_pipe_line_setup.Frame.Extract.{bridge_extract_joystick}
use imx8mp_pipe_line_setup.Frame.Stamp.{Times}
use imx8mp_pipe_line_setup.Frame.Stamp.Plain.{stamp_text}
use imx8mp_pipe_line_setup.Motor.{Interpreter, Motor, MotorOut}
use imx8mp_pipe_line_setup.Motor.Same.{SameSession}
use imx8mp_pipe_line_setup.Motor.Session.{compute-SameSession}
use imx8mp_pipe_line_setup.ClockOffset.{Samples, clock_offset_correct}
use imx8mp_pipe_line_setup.Server.{max_bridged_frame_len, times_of, infer}
use imx8mp_pipe_line_setup.Server.Plain.{
  Sender, Sent, corrected_text, joystick_text, sent_after, publish_text, send_text, forward_text,
}

-- The statistics, the log and the last text may differ.
pub record SameSender {W V : Type 0} (a b : Sender W V) : Type 0 where
  pub context : a.context ≡ b.context
  pub protocol : a.protocol ≡ b.protocol
  pub motor : SameSession a.motor b.motor
  pub samples : a.samples ≡ b.samples

-- The text that is announced with a wake, if there is one.
abbrev pub announced : {W V : Type 0} → Sent W V → Option ((Option ℕ × ℕ) × Bytes)
announced sent = do woken ← sent.wake; some (woken, sent.sender.latest)

abbrev pub SameSent : {W V : Type 0} → Option (Sent W V) → Option (Sent W V) → Type 0
SameSent none none = Unit
SameSent none (some t) = ⊥
SameSent (some s) none = ⊥
SameSent (some s) (some t) = SameSender s.sender t.sender × (announced s ≡ announced t)

module _ {W V : Type 0} ⦃d : Double W⦄ ⦃s : Stdio W⦄ where
  module _ (joystick : Option (W × W)) (motor_out : Option (MotorOut W)) (received : W)
      (a b : Sender W V) (same : SameSender a b) where
    -- What is published, from the same kept samples.
    sent_after-same :
        (times : Times W) (body : Bytes) (o : Option (W × Samples W))
        → SameSent
            (o >>= λ kept. some (sent_after joystick motor_out times received body a kept))
            (o >>= λ kept. some (sent_after joystick motor_out times received body b kept))
    unfolding sent_after
    sent_after-same times body none = tt
    sent_after-same times body (some (corrected, samples)) =
        let text = joystick_text joystick motor_out (corrected_text corrected body) in
        (
          record {
            context = same.context;
            protocol = same.protocol;
            motor = same.motor;
            samples = refl;
          },
          λ i. (same.protocol i >>= λ protocol. some (same.context i, protocol)) >>= λ woken.
              some (woken, text),
        )

    send_text-same :
        (o : Option (Bytes × Option (Times W)))
        → SameSent
            (send_text joystick motor_out received o a)
            (send_text joystick motor_out received o b)
    unfolding send_text publish_text
    send_text-same none = (same, refl)
    send_text-same (some (body, written)) =
        let times = times_of written in
        let kept = clock_offset_correct times.frame_transfer_time received in
        subst
          (λ o.
            SameSent
              (kept a.samples >>= λ kept.
                some (sent_after joystick motor_out times received body a kept))
              (o >>= λ kept. some (sent_after joystick motor_out times received body b kept)))
          (ap kept same.samples) (sent_after-same times body (kept a.samples))

  module _ ⦃m : Libm W⦄ (interpreter : Interpreter V) where
    infer-same :
        (joystick : Option (W × W)) (a b : Motor W V)
        → SameSession a b
        → ((infer interpreter joystick a).0 ≡ (infer interpreter joystick b).0)
          × SameSession (infer interpreter joystick a).1 (infer interpreter joystick b).1
    unfolding infer
    infer-same none a b same = (refl, same)
    infer-same (some (x, y)) a b same = compute-SameSession interpreter x y a b same

    -- A frame is announced with the same text, and the states stay alike.
    pub forward_text-same :
        (raw_frame : Bytes) (received forward : W) (a b : Sender W V)
        → SameSender a b
        → SameSent
            (forward_text interpreter raw_frame received forward a)
            (forward_text interpreter raw_frame received forward b)
    unfolding forward_text
    forward_text-same raw_frame received forward a b same =
        let joystick = bridge_extract_joystick raw_frame in
        let stamped = stamp_text raw_frame received forward max_bridged_frame_len in
        let inferred = infer interpreter joystick a.motor in
        let inferred' = infer interpreter joystick b.motor in
        let (motor_out_is, motor_same) = infer-same joystick a.motor b.motor same.motor in
        subst
          (λ motor_out.
            SameSent
              (send_text joystick inferred.0 received stamped (record a { motor = inferred.1 }))
              (send_text joystick motor_out received stamped (record b { motor = inferred'.1 })))
          motor_out_is
          (send_text-same joystick inferred.0 received (record a { motor = inferred.1 })
            (record b { motor = inferred'.1 })
            (record {
              context = same.context;
              protocol = same.protocol;
              motor = motor_same;
              samples = same.samples;
            })
            stamped)
