-- ===== src/Server.antt =====
-- src/bridge_server.cpp: the ICU-facing side, which turns a frame of the controller into the payload that
-- the connected clients are sent.
pub mod Outcome
pub mod Edits
pub mod Forward
pub mod Capacity
pub mod Plain
use imx8mp_pipe_line_setup.Prelude.{
  ℕ, ◌<◌, Bool, Option, none, some, List, ltb, if◌then◌else◌, take, Bytes, codes, ◌>>=◌,
}
use imx8mp_pipe_line_setup.Prelude.Int.{ℤ, pos, minus_one, ltb_ℤ}
use imx8mp_pipe_line_setup.Memory.{size_of}
use imx8mp_pipe_line_setup.Double.{Double, Libm, Stdio}
use imx8mp_pipe_line_setup.Frame.Extract.{bridge_extract_joystick}
use imx8mp_pipe_line_setup.Frame.Stamp.{Times, Stamped, bridge_stamp_frame}
use imx8mp_pipe_line_setup.Frame.Edit.{
  Edited, bridge_append_field, bridge_append_motor_fields, bridge_reformat_joystick,
}
use imx8mp_pipe_line_setup.Motor.{Interpreter, Motor, MotorOut, motor_inference_compute}
use imx8mp_pipe_line_setup.FrameStats.{Stats, Report, frame_stats_record}
use imx8mp_pipe_line_setup.ClockOffset.{Samples, clock_offset_correct}
use imx8mp_pipe_line_setup.TimingLog.{LogFile, timing_log_record}

abbrev pub max_bridged_frame_len : ℕ
max_bridged_frame_len = 1024

-- The statics of the file, and those of the modules that `bridge_server_forward` calls. `payload` is
-- `s_payload` behind its `LWS_PRE` bytes, and a pointer of the library is its number.
pub record Server (W V : Type 0) : Type 0 where
  pub payload : Bytes
  pub payload_len : ℕ
  pub context : Option ℕ
  pub protocol : Option ℕ
  pub motor : Motor W V
  pub stats : Stats W
  pub samples : Samples W
  pub log : LogFile

unfoldable pub bridge_server_start : {W V : Type 0} → ℕ → Server W V → Server W V
bridge_server_start context server = record server {
  context = some context;
  payload_len = 0;
  protocol = none;
}

-- The reasons that `callback_icu` tells apart.
pub data IcuReason : Type 0 where
  established : IcuReason
  server_writeable : IcuReason
  closed : IcuReason
  other : IcuReason

-- The return value, the state afterwards, and the bytes that `lws_write` was given, if it was called.
pub record Answered (W V : Type 0) : Type 0 where
  pub ret : ℤ
  pub server : Server W V
  pub written : Option Bytes

abbrev pub answered : {W V : Type 0} → Server W V → Answered W V
answered server = record { ret = pos 0; server = server; written = none }

-- The callback on a connection whose protocol entry is `protocol`; `lws_write` is what the library's
-- function returns for the bytes it is given.
unfoldable pub callback_icu :
    {W V : Type 0} → ℕ → (Bytes → ℤ) → IcuReason → Server W V → Answered W V
callback_icu protocol lws_write established server = elim server.protocol [
  | none ↦ answered (record server { protocol = some protocol })
  | some known ↦ answered server
]
callback_icu protocol lws_write server_writeable server =
    if ltb 0 server.payload_len
    then (let bytes = take server.payload_len server.payload in
        record {
          ret = if ltb_ℤ (lws_write bytes) (pos server.payload_len) then minus_one else pos 0;
          server = server;
          written = some bytes;
        })
    else answered server
callback_icu protocol lws_write closed server = answered server
callback_icu protocol lws_write other server = answered server

-- The buffer of the payload, and `n`.
pub record Text : Type 0 where
  pub buf : Bytes
  pub n : ℕ

-- An edit that fails leaves `n` as it is.
pub try_edit : (Bytes → ℕ → ℕ → Option Edited) → Text → Option Text
try_edit edit text = do
  r ← edit text.buf text.n max_bridged_frame_len
  some (record { buf = r.buf; n = if ltb_ℤ r.ret (pos 0) then text.n else size_of r.ret })

-- The new state, the printed report, and the context and protocol whose connections were asked for a
-- writeable callback.
pub record Forwarded (W V : Type 0) : Type 0 where
  pub server : Server W V
  pub report : Option (Report W)
  pub wake : Option (Option ℕ × ℕ)

abbrev pub corrected_key : Bytes
corrected_key = codes "frame_transfer_time_corrected"

-- `frame_transfer_time` and `processing_time` after the stamp, which leaves them at 0.0 where it writes none.
pub times_of : {W : Type 0} ⦃d : Double W⦄ → Option (Times W) → Times W
times_of ⦃d⦄ none = record { frame_transfer_time = d.decimal 0 0; processing_time = d.decimal 0 0 }
times_of (some times) = times

-- The call at the end, which is made only if the protocol is known.
unfoldable pub wake_of : {W V : Type 0} → Server W V → Option (Option ℕ × ℕ)
wake_of server = do protocol ← server.protocol; some (server.context, protocol)

module _ {W : Type 0} ⦃s : Stdio W⦄ where
  pub splice_motor : Option (MotorOut W) → Text → Option Text
  unfolding try_edit
  splice_motor none text = some text
  splice_motor (some m) text =
      try_edit (λ buf n cap. bridge_append_motor_fields buf n cap m.m1 m.m2 m.m3 m.m4) text

  -- The branch on `have_joystick`.
  pub splice_joystick : Option (W × W) → Option (MotorOut W) → Text → Option Text
  unfolding try_edit splice_motor
  splice_joystick none motor_out text = some text
  splice_joystick (some (x, y)) motor_out text = do
    reformatted ← try_edit (λ buf n cap. bridge_reformat_joystick buf n cap x y) text
    splice_motor motor_out reformatted

module _ {W V : Type 0} ⦃d : Double W⦄ where
  module _ ⦃s : Stdio W⦄ where
    -- From `frame_stats_record` on, for a frame that has been stamped.
    pub publish :
        Option (W × W) → Option (MotorOut W) → Times W → W → ℕ → Server W V → Option (Forwarded W V)
    unfolding try_edit splice_joystick wake_of
    publish joystick motor_out times received_ntp_time n server =
        let recorded =
          frame_stats_record times.frame_transfer_time times.processing_time server.stats in
        (do
          (corrected_transfer_time, samples) ←
              clock_offset_correct times.frame_transfer_time received_ntp_time server.samples
          with_correction ←
              try_edit
                (λ buf n cap. bridge_append_field buf n cap corrected_key corrected_transfer_time)
                (record { buf = server.payload; n = n })
          spliced ← splice_joystick joystick motor_out with_correction
          some (record {
            server = record server {
              payload = spliced.buf;
              payload_len = spliced.n;
              stats = recorded.0;
              samples = samples;
              log =
                  timing_log_record received_ntp_time times.frame_transfer_time
                    corrected_transfer_time times.processing_time server.log;
            };
            report = recorded.1;
            wake = wake_of server;
          }))

    -- The return on `n < 0`.
    pub after_stamp :
        Option (W × W) → Option (MotorOut W) → W → Stamped W → Server W V → Option (Forwarded W V)
    unfolding publish times_of
    after_stamp joystick motor_out received_ntp_time stamped server =
        if ltb_ℤ stamped.ret (pos 0)
        then some (record {
          server = record server { payload = stamped.out };
          report = none;
          wake = none;
        })
        else publish joystick motor_out (times_of stamped.times) received_ntp_time
            (size_of stamped.ret) (record server { payload = stamped.out })

    module _ ⦃m : Libm W⦄ (interpreter : Interpreter V) where
      -- The inference, where the frame has a joystick position.
      pub infer : Option (W × W) → Motor W V → Option (MotorOut W) × Motor W V
      infer none motor = (none, motor)
      infer (some (x, y)) motor = motor_inference_compute interpreter x y motor

      -- `forward_ntp_time` is the clock's reading after the inference. A memory fault is `none`.
      unfoldable pub bridge_server_forward : Bytes → W → W → Server W V → Option (Forwarded W V)
      unfolding infer after_stamp
      bridge_server_forward raw_frame received_ntp_time forward_ntp_time server =
          let joystick = bridge_extract_joystick raw_frame in
          let (motor_out, motor') = infer joystick server.motor in
          (do
            stamped ←
                bridge_stamp_frame raw_frame received_ntp_time forward_ntp_time server.payload
                  max_bridged_frame_len
            after_stamp joystick motor_out received_ntp_time stamped
                (record server { motor = motor' }))
