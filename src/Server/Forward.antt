-- ===== src/Server/Forward.antt =====
-- `bridge_server_forward` against the description of what it leaves.
use imx8mp_pipe_line_setup.Prelude.{
  ℕ, ◌≡◌, refl, ap, ◌∙◌, Option, none, some, arith, length, take, Bytes, >>=-some,
}
use imx8mp_pipe_line_setup.Prelude.Int.{not_negative}
use imx8mp_pipe_line_setup.Double.{Double, Libm, Stdio, IsOrdered}
use imx8mp_pipe_line_setup.Frame.Extract.{bridge_extract_joystick}
use imx8mp_pipe_line_setup.Frame.Stamp.{Times, Stamped}
use imx8mp_pipe_line_setup.Frame.Stamp.Outcome.{StampOutcome, copied, dropped, stamped}
use imx8mp_pipe_line_setup.Frame.Stamp.Layout.{bridge_stamp_frame-StampOutcome}
use imx8mp_pipe_line_setup.Motor.{Interpreter, MotorOut}
use imx8mp_pipe_line_setup.ClockOffset.Minimum.{clock_offset_correct-some}
use imx8mp_pipe_line_setup.Server.{
  Server, Forwarded, max_bridged_frame_len, corrected_key, times_of, publish, after_stamp, infer,
  bridge_server_forward,
}
use imx8mp_pipe_line_setup.Server.Outcome.{
  IsServer, IsBody, stamped_body, copied_body, IsPublished, ForwardOutcome, frame_dropped,
  frame_published,
}
use imx8mp_pipe_line_setup.Server.Edits.{IsText, append_field-Edits, splice_joystick-Edits}

module _ {W V : Type 0} ⦃d : Double W⦄ ⦃s : Stdio W⦄ (laws : IsOrdered W) (raw_frame : Bytes)
    (received forward : W) (motor_out : Option (MotorOut W)) (server : Server W V) where
  -- From a body that the payload holds.
  publish-IsPublished :
      (times : Times W) (body out : Bytes) (n : ℕ)
      → IsText (record { buf = out; n = n })
      → IsBody raw_frame received forward times body
      → take n out ≡ body
      → (f : Forwarded W V) × (publish
            (bridge_extract_joystick raw_frame)
            motor_out
            times
            received
            n
            (record server { payload = out })
          ≡ some f)
        × IsServer f.server
        × IsPublished raw_frame received forward motor_out server f
  unfolding publish
  publish-IsPublished times body out n i body_is out_is =
      let ((corrected, samples), e) =
        clock_offset_correct-some laws times.frame_transfer_time received server.samples in
      let (t, done, j, appended) =
        append_field-Edits corrected_key corrected (record { buf = out; n = n }) i in
      let (t', done', k, spliced) =
        splice_joystick-Edits (bridge_extract_joystick raw_frame) motor_out t j in
      (
        _,
        >>=-some _ e (>>=-some _ done (>>=-some _ done' refl)),
        record { storage = k.storage; within = k.within },
        record {
          times = times;
          body = body;
          with_correction = take t.n t.buf;
          corrected_transfer_time = corrected;
          body_is = body_is;
          correction_is = e;
          appended = rw out_is at appended;
          payload_is = spliced;
          stats_is = refl;
          log_is = refl;
          motor_is = refl;
          context_is = refl;
          protocol_is = refl;
          wake_is = refl;
        },
      )

  -- From any outcome of the stamp, which was given the payload's storage.
  after_stamp-ForwardOutcome :
      (r : Stamped W)
      → IsServer server
      → StampOutcome raw_frame received forward server.payload max_bridged_frame_len r
      → (f : Forwarded W V) × (after_stamp
            (bridge_extract_joystick raw_frame)
            motor_out
            received
            r
            server
          ≡ some f)
        × IsServer f.server
        × ForwardOutcome raw_frame received forward motor_out server f
  unfolding after_stamp times_of
  after_stamp-ForwardOutcome r i (dropped why ret_is out_is) = (
    record { server = record server { payload = r.out }; report = none; wake = none },
    rw ret_is refl,
    record { storage = ap length out_is ∙ i.storage; within = i.within },
    frame_dropped r.times why (ap (λ out. record server { payload = out }) out_is) refl refl,
  )
  after_stamp-ForwardOutcome r i (copied no_key short ret_is holds times_is) =
      let (f, done, j, published) =
        publish-IsPublished (times_of none) raw_frame r.out (length raw_frame)
          (record { storage = holds.size_is ∙ i.storage; within = short })
          (copied_body no_key refl refl) holds.text_is in
      (f, rw (ret_is, not_negative (length raw_frame), times_is) done, j, frame_published published)
  after_stamp-ForwardOutcome r i (stamped times result is_stamped short ret_is holds times_is) =
      let (f, done, j, published) =
        publish-IsPublished times result r.out (length result)
          (record { storage = holds.size_is ∙ i.storage; within = short }) (stamped_body is_stamped)
          holds.text_is in
      (f, rw (ret_is, not_negative (length result), times_is) done, j, frame_published published)

module _ {W V : Type 0} ⦃d : Double W⦄ ⦃s : Stdio W⦄ ⦃m : Libm W⦄ (laws : IsOrdered W)
    (interpreter : Interpreter V) where
  -- bridge_server_forward, from any state whose payload lies in its 1024 bytes and for a double with IEEE
  -- 754's order, does not fault on any frame and leaves such a state. The frame is dropped, and then only
  -- the inference has changed the state; or it is published: the payload is the frame, stamped, or as it
  -- is if it has no sent time, with the corrected time, the reformatted joystick and the motor positions
  -- as far as each fits, and the statistics, the samples and the log have the frame's times.
  pub bridge_server_forward-ForwardOutcome :
      (raw_frame : Bytes) (received forward : W) (server : Server W V)
      → IsServer server
      → let (motor_out, motor') =
          infer interpreter (bridge_extract_joystick raw_frame) server.motor in
        (f : Forwarded W V) × (bridge_server_forward interpreter raw_frame received forward server
          ≡ some f)
        × IsServer f.server
        × ForwardOutcome raw_frame received forward motor_out (record server { motor = motor' }) f
  unfolding bridge_server_forward
  bridge_server_forward-ForwardOutcome raw_frame received forward server i =
      let inferred = infer interpreter (bridge_extract_joystick raw_frame) server.motor in
      let (r, done, outcome) =
        bridge_stamp_frame-StampOutcome raw_frame received forward server.payload
          max_bridged_frame_len (omega (arith, i.storage)) (omega arith) in
      let (f, done', j, forwarded) =
        after_stamp-ForwardOutcome laws raw_frame received forward inferred.0
          (record server { motor = inferred.1 }) r
          (record { storage = i.storage; within = i.within }) outcome in
      (f, >>=-some _ done done', j, forwarded)
