-- ===== src/Server/Plain/Forward.antt =====
-- `bridge_server_forward` against the function on texts.
use imx8mp_pipe_line_setup.Prelude.{
  ℕ, ◌≡◌, refl, sym, ap, ◌∙◌, Option, none, some, arith, length, take, Bytes, >>=-some,
}
use imx8mp_pipe_line_setup.Prelude.Int.{not_negative}
use imx8mp_pipe_line_setup.Double.{Double, Libm, Stdio, IsOrdered}
use imx8mp_pipe_line_setup.Frame.Extract.{bridge_extract_joystick}
use imx8mp_pipe_line_setup.Frame.Stamp.{Times, Stamped}
use imx8mp_pipe_line_setup.Frame.Stamp.Plain.{
  stamp_text, StampsAs, refused, written, bridge_stamp_frame-StampsAs,
}
use imx8mp_pipe_line_setup.Motor.{Interpreter, MotorOut}
use imx8mp_pipe_line_setup.FrameStats.{frame_stats_record}
use imx8mp_pipe_line_setup.TimingLog.{timing_log_record}
use imx8mp_pipe_line_setup.ClockOffset.Minimum.{clock_offset_correct-some}
use imx8mp_pipe_line_setup.Server.{
  Server, Forwarded, max_bridged_frame_len, times_of, publish, after_stamp, wake_of, infer,
  bridge_server_forward,
}
use imx8mp_pipe_line_setup.Server.Outcome.{IsServer}
use imx8mp_pipe_line_setup.Server.Edits.{IsText}
use imx8mp_pipe_line_setup.Server.Plain.{
  Sent, view, corrected_text, joystick_text, publish_text, send_text, forward_text,
}
use imx8mp_pipe_line_setup.Server.Plain.Edits.{append_field-Leaves, splice_joystick-Leaves}

-- What a call leaves and reports, without the storage.
abbrev pub sent_of : {W V : Type 0} → Forwarded W V → Sent W V
sent_of f = record { sender = view f.server; report = f.report; wake = f.wake }

module _ {W V : Type 0} ⦃d : Double W⦄ ⦃s : Stdio W⦄ (laws : IsOrdered W)
    (joystick : Option (W × W)) (motor_out : Option (MotorOut W)) (received : W)
    (server : Server W V) where
  publish-text :
      (times : Times W) (body out : Bytes) (n : ℕ)
      → IsText (record { buf = out; n = n })
      → take n out ≡ body
      → (f : Forwarded W V) × (publish joystick motor_out times received n
            (record server { payload = out })
          ≡ some f)
        × IsServer f.server
        × (publish_text joystick motor_out times received body (view server) ≡ some (sent_of f))
  unfolding publish publish_text wake_of
  publish-text times body out n i out_is =
      let ((corrected, samples), e) =
        clock_offset_correct-some laws times.frame_transfer_time received server.samples in
      let (t, done, j, text_is) = append_field-Leaves corrected (record { buf = out; n = n }) i in
      let (t', done', k, text_is') = splice_joystick-Leaves joystick motor_out t j in
      let recorded =
        frame_stats_record times.frame_transfer_time times.processing_time server.stats in
      let latest_is = sym (
        text_is'
        ∙ ap (joystick_text joystick motor_out) (text_is ∙ ap (corrected_text corrected) out_is)) in
      (
        _,
        >>=-some _ e (>>=-some _ done (>>=-some _ done' refl)),
        record { storage = k.storage; within = k.within },
        >>=-some _ e (
            ap {A = Bytes}
              (λ text. some (record {
                sender = record (view server) {
                  latest = text;
                  stats = recorded.0;
                  samples = samples;
                  log =
                      timing_log_record received times.frame_transfer_time corrected
                        times.processing_time server.log;
                };
                report = recorded.1;
                wake = wake_of server;
              }))
              latest_is),
      )

  after_stamp-text :
      (r : Stamped W) (o : Option (Bytes × Option (Times W)))
      → IsServer server
      → StampsAs server.payload max_bridged_frame_len r o
      → (f : Forwarded W V) × (after_stamp joystick motor_out received r server ≡ some f)
        × IsServer f.server
        × (send_text joystick motor_out received o (view server) ≡ some (sent_of f))
  unfolding after_stamp send_text
  after_stamp-text r o i (refused o_is ret_is out_is) = (
    record { server = record server { payload = r.out }; report = none; wake = none },
    rw ret_is refl,
    record { storage = ap length out_is ∙ i.storage; within = i.within },
    rw o_is (
        ap {A = Bytes}
          (λ out. some (record {
            sender = view (record server { payload = out });
            report = none;
            wake = none;
          }))
          (sym out_is)),
  )
  after_stamp-text r o i (written text o_is short ret_is holds) =
      let (f, done, j, same) =
        publish-text (times_of r.times) text r.out (length text)
          (record { storage = holds.size_is ∙ i.storage; within = short }) holds.text_is in
      (f, rw (ret_is, not_negative (length text)) done, j, rw o_is same)

module _ {W V : Type 0} ⦃d : Double W⦄ ⦃s : Stdio W⦄ ⦃m : Libm W⦄ (laws : IsOrdered W)
    (interpreter : Interpreter V) where
  -- bridge_server_forward, from any state whose payload lies in its 1024 bytes and for a double with IEEE
  -- 754's order, does not fault, leaves such a state, and gives the payload's text, the report, the
  -- writeable callback and the rest of the state as forward_text does, a function on texts alone: it
  -- makes the stamp, the insertions and the replacements by taking texts apart and together, with no
  -- storage, no moves and no lengths kept beside the text.
  pub bridge_server_forward-text :
      (raw_frame : Bytes) (received forward : W) (server : Server W V)
      → IsServer server
      → (f : Forwarded W V) × (bridge_server_forward interpreter raw_frame received forward server
          ≡ some f)
        × IsServer f.server
        × (forward_text interpreter raw_frame received forward (view server) ≡ some (sent_of f))
  unfolding bridge_server_forward forward_text
  bridge_server_forward-text raw_frame received forward server i =
      let joystick = bridge_extract_joystick raw_frame in
      let (motor_out, motor') = infer interpreter joystick server.motor in
      let (r, done, stamps) =
        bridge_stamp_frame-StampsAs raw_frame received forward server.payload max_bridged_frame_len
          (omega (arith, i.storage)) (omega arith) in
      let (f, done', j, same) =
        after_stamp-text laws joystick motor_out received (record server { motor = motor' }) r
          (stamp_text raw_frame received forward max_bridged_frame_len)
          (record { storage = i.storage; within = i.within }) stamps in
      (f, >>=-some _ done done', j, same)
