-- ===== src/Server/Plain.antt =====
-- `bridge_server_forward` of src/bridge_server.cpp as a function on texts: the state without the payload's
-- storage, and a frame's way through it.
pub mod Edits
pub mod Forward
pub mod Same
use imx8mp_pipe_line_setup.Prelude.{ℕ, Option, none, some, take, Bytes, ◌>>=◌}
use imx8mp_pipe_line_setup.Double.{Double, Libm, Stdio}
use imx8mp_pipe_line_setup.Frame.Extract.{bridge_extract_joystick}
use imx8mp_pipe_line_setup.Frame.Edit.{motor_fields, named_field}
use imx8mp_pipe_line_setup.Frame.Edit.Plain.{or_old, insert_text, reformat_text}
use imx8mp_pipe_line_setup.Frame.Stamp.{Times}
use imx8mp_pipe_line_setup.Frame.Stamp.Plain.{stamp_text}
use imx8mp_pipe_line_setup.Motor.{Interpreter, Motor, MotorOut}
use imx8mp_pipe_line_setup.FrameStats.{Stats, Report, frame_stats_record}
use imx8mp_pipe_line_setup.ClockOffset.{Samples, clock_offset_correct}
use imx8mp_pipe_line_setup.TimingLog.{LogFile, timing_log_record}
use imx8mp_pipe_line_setup.Server.{Server, max_bridged_frame_len, corrected_key, times_of, infer}

-- The state of the server with the text of the last published frame in place of the payload.
pub record Sender (W V : Type 0) : Type 0 where
  pub latest : Bytes
  pub context : Option ℕ
  pub protocol : Option ℕ
  pub motor : Motor W V
  pub stats : Stats W
  pub samples : Samples W
  pub log : LogFile

abbrev pub view : {W V : Type 0} → Server W V → Sender W V
view server = record {
  latest = take server.payload_len server.payload;
  context = server.context;
  protocol = server.protocol;
  motor = server.motor;
  stats = server.stats;
  samples = server.samples;
  log = server.log;
}

pub record Sent (W V : Type 0) : Type 0 where
  pub sender : Sender W V
  pub report : Option (Report W)
  pub wake : Option (Option ℕ × ℕ)

module _ {W : Type 0} ⦃s : Stdio W⦄ where
  abbrev pub corrected_text : W → Bytes → Bytes
  corrected_text corrected text =
      or_old text (insert_text max_bridged_frame_len 128 (named_field corrected_key corrected) text)

  abbrev pub motor_text : Option (MotorOut W) → Bytes → Bytes
  motor_text none text = text
  motor_text (some m) text =
      or_old text (insert_text max_bridged_frame_len 192 (motor_fields m.m1 m.m2 m.m3 m.m4) text)

  abbrev pub joystick_text : Option (W × W) → Option (MotorOut W) → Bytes → Bytes
  joystick_text none motor_out text = text
  joystick_text (some (x, y)) motor_out text =
      motor_text motor_out (reformat_text max_bridged_frame_len (s.fixed 8 x) (s.fixed 8 y) text)

module _ {W V : Type 0} ⦃d : Double W⦄ ⦃s : Stdio W⦄ where
  -- What a published frame leaves, with its corrected time and the samples that are kept.
  unfoldable pub sent_after :
      Option (W × W)
      → Option (MotorOut W)
      → Times W
      → W
      → Bytes
      → Sender W V
      → W × Samples W
      → Sent W V
  sent_after joystick motor_out times received body sender (corrected, samples) =
      let recorded =
        frame_stats_record times.frame_transfer_time times.processing_time sender.stats in
      record {
        sender = record sender {
          latest = joystick_text joystick motor_out (corrected_text corrected body);
          stats = recorded.0;
          samples = samples;
          log =
              timing_log_record received times.frame_transfer_time corrected times.processing_time
                sender.log;
        };
        report = recorded.1;
        wake = (do protocol ← sender.protocol; some (sender.context, protocol));
      }

  -- From the text of the stamped frame on.
  unfoldable pub publish_text :
      Option (W × W) → Option (MotorOut W) → Times W → W → Bytes → Sender W V → Option (Sent W V)
  unfolding sent_after
  publish_text joystick motor_out times received body sender = do
    kept ← clock_offset_correct times.frame_transfer_time received sender.samples
    some (sent_after joystick motor_out times received body sender kept)

  unfoldable pub send_text :
      Option (W × W)
      → Option (MotorOut W)
      → W
      → Option (Bytes × Option (Times W))
      → Sender W V
      → Option (Sent W V)
  unfolding publish_text
  send_text joystick motor_out received none sender =
      some (record { sender = sender; report = none; wake = none })
  send_text joystick motor_out received (some (body, times)) sender =
      publish_text joystick motor_out (times_of times) received body sender

  module _ ⦃m : Libm W⦄ (interpreter : Interpreter V) where
    unfoldable pub forward_text : Bytes → W → W → Sender W V → Option (Sent W V)
    unfolding send_text
    forward_text raw_frame received forward sender =
        let joystick = bridge_extract_joystick raw_frame in
        let (motor_out, motor') = infer interpreter joystick sender.motor in
        send_text joystick motor_out received
          (stamp_text raw_frame received forward max_bridged_frame_len)
          (record sender { motor = motor' })
