-- ===== src/Server/Outcome.antt =====
-- What a forwarded frame leaves: the text that the clients are sent, and the state behind it.
use imx8mp_pipe_line_setup.Prelude.{ℕ, ◌≤◌, ◌≡◌, ◌⊎◌, Option, none, some, ◌++◌, length, take, Bytes}
use imx8mp_pipe_line_setup.Double.{Double, Stdio}
use imx8mp_pipe_line_setup.Frame.Extract.{joystick_x_key, joystick_y_key, bridge_extract_joystick}
use imx8mp_pipe_line_setup.Frame.Stamp.{Times}
use imx8mp_pipe_line_setup.Frame.Stamp.Outcome.{NoSentKey, IsStamped, StampFails}
use imx8mp_pipe_line_setup.Frame.Edit.{motor_fields, named_field}
use imx8mp_pipe_line_setup.Frame.Edit.Outcome.{IsInsertion, IsReplaced}
use imx8mp_pipe_line_setup.Frame.Edit.Insert.{AppendFails}
use imx8mp_pipe_line_setup.Frame.Edit.Replace.{ReplaceFails}
use imx8mp_pipe_line_setup.Motor.{MotorOut}
use imx8mp_pipe_line_setup.FrameStats.{frame_stats_record}
use imx8mp_pipe_line_setup.ClockOffset.{clock_offset_correct}
use imx8mp_pipe_line_setup.TimingLog.{timing_log_record}
use imx8mp_pipe_line_setup.Server.{
  Server, Forwarded, max_bridged_frame_len, corrected_key, times_of, wake_of,
}

-- The storage of the payload has its declared size, and the payload lies within it.
pub record IsServer {W V : Type 0} (server : Server W V) : Type 0 where
  pub storage : length server.payload ≡ max_bridged_frame_len
  pub within : server.payload_len ≤ max_bridged_frame_len

-- The text before the fields are added: the frame, stamped or, with no sent time, as it is.
pub data IsBody {W : Type 0} ⦃d : Double W⦄ ⦃s : Stdio W⦄ (raw_frame : Bytes) (received forward : W)
    (times : Times W) (text : Bytes) : Type 0 where
  stamped_body :
      IsStamped raw_frame received forward times text → IsBody raw_frame received forward times text
  copied_body :
      NoSentKey raw_frame
      → times ≡ times_of none
      → text ≡ raw_frame
      → IsBody raw_frame received forward times text

-- Fields of less than `size` bytes stand before the last closing brace, or the text is as it was and they fit
-- not.
abbrev pub Appended : ℕ → Bytes → Bytes → Bytes → Type 0
Appended size fields before after =
    ((after ≡ before) × AppendFails size fields max_bridged_frame_len before)
    ⊎ IsInsertion fields before after

-- The reformatting of a joystick position. Where only y fails, the text is cut at its old length, and if it
-- has become shorter, what lay behind it in the buffer follows.
pub data Respelled {W : Type 0} ⦃s : Stdio W⦄ (x y : W) (before after : Bytes) : Type 0 where
  x_refused :
      after ≡ before
      → ReplaceFails joystick_x_key max_bridged_frame_len (s.fixed 8 x) before
      → Respelled x y before after
  y_refused :
      (half rest : Bytes)
      → IsReplaced joystick_x_key (s.fixed 8 x) before half
      → ReplaceFails joystick_y_key max_bridged_frame_len (s.fixed 8 y) half
      → after ≡ take (length before) (half ++ rest)
      → Respelled x y before after
  both :
      (half : Bytes)
      → IsReplaced joystick_x_key (s.fixed 8 x) before half
      → IsReplaced joystick_y_key (s.fixed 8 y) half after
      → Respelled x y before after

module _ {W : Type 0} ⦃s : Stdio W⦄ where
  abbrev pub MotorAppended : Option (MotorOut W) → Bytes → Bytes → Type 0
  MotorAppended none before after = after ≡ before
  MotorAppended (some m) before after = Appended 192 (motor_fields m.m1 m.m2 m.m3 m.m4) before after

  -- The two edits of a frame that has a joystick position, in their order.
  abbrev pub JoystickSpliced : Option (W × W) → Option (MotorOut W) → Bytes → Bytes → Type 0
  JoystickSpliced none motor_out before after = after ≡ before
  JoystickSpliced (some (x, y)) motor_out before after =
      (respelled : Bytes) × Respelled x y before respelled × MotorAppended motor_out respelled after

module _ {W V : Type 0} ⦃d : Double W⦄ ⦃s : Stdio W⦄ where
  -- A frame that is published. `server` is the state after the inference.
  pub record IsPublished (raw_frame : Bytes) (received forward : W)
      (motor_out : Option (MotorOut W)) (server : Server W V) (f : Forwarded W V) : Type 0 where
    pub times : Times W
    pub body : Bytes
    pub with_correction : Bytes
    pub corrected_transfer_time : W
    pub body_is : IsBody raw_frame received forward times body
    pub correction_is :
        clock_offset_correct times.frame_transfer_time received server.samples
        ≡ some (corrected_transfer_time, f.server.samples)
    pub appended :
        Appended 128 (named_field corrected_key corrected_transfer_time) body with_correction
    pub payload_is :
        JoystickSpliced
          (bridge_extract_joystick raw_frame)
          motor_out
          with_correction
          (take f.server.payload_len f.server.payload)
    pub stats_is :
        frame_stats_record times.frame_transfer_time times.processing_time server.stats
        ≡ (f.server.stats, f.report)
    pub log_is :
        f.server.log
        ≡ timing_log_record received times.frame_transfer_time corrected_transfer_time
            times.processing_time server.log
    pub motor_is : f.server.motor ≡ server.motor
    pub context_is : f.server.context ≡ server.context
    pub protocol_is : f.server.protocol ≡ server.protocol
    pub wake_is : f.wake ≡ wake_of server

  pub data ForwardOutcome (raw_frame : Bytes) (received forward : W)
      (motor_out : Option (MotorOut W)) (server : Server W V) (f : Forwarded W V) : Type 0 where
    frame_dropped :
        (times : Option (Times W))
        → StampFails raw_frame received forward max_bridged_frame_len times
        → f.server ≡ server
        → f.report ≡ none
        → f.wake ≡ none
        → ForwardOutcome raw_frame received forward motor_out server f
    frame_published :
        IsPublished raw_frame received forward motor_out server f
        → ForwardOutcome raw_frame received forward motor_out server f
