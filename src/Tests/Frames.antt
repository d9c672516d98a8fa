-- ===== src/Tests/Frames.antt =====
-- src/frame_bridge.cpp and the sizes of src/bridge_common.h on a concrete frame.
use imx8mp_pipe_line_setup.Prelude.{
  ℕ, ◌^◌, ◌≤◌, ◌≡◌, refl, ◌⊎◌, Option, some, ◌++◌, arith, length, length-append, replicate, take,
  drop, Bytes, codes,
}
use imx8mp_pipe_line_setup.Prelude.Int.{ℤ, pos, negsuc, minus_one, ◌-ℤ◌, to_int}
use imx8mp_pipe_line_setup.Memory.{size_of, snprintf, memcpy, memmove}
use imx8mp_pipe_line_setup.Memory.Pieces.{append_all}
use mathlib.Core.Option
use imx8mp_pipe_line_setup.Double.Micro.{micro_double}
use imx8mp_pipe_line_setup.Double.Printing.{micro_stdio}
use imx8mp_pipe_line_setup.Frame.Search.{find_substr, find_substr-IsFirst, IsFirst}
use imx8mp_pipe_line_setup.Frame.Span.{find_value_span, parse_double_span}
use imx8mp_pipe_line_setup.Frame.Extract.{
  find_sent_time_key, joystick_x_key, joystick_y_key, extract_double_field, bridge_extract_joystick,
}
use imx8mp_pipe_line_setup.Frame.Extract.Value.{
  Extracted, both, extract_double_field-Extracted, bridge_extract_joystick-Extracted,
}
use imx8mp_pipe_line_setup.Frame.Edit.{
  Edited, replace_value_for_key, bridge_reformat_joystick, bridge_append_field,
  bridge_append_motor_fields, named_field, motor_fields,
}
use imx8mp_pipe_line_setup.Frame.Edit.Outcome.{Outcome, IsReplaced, IsInsertion}
use imx8mp_pipe_line_setup.Frame.Edit.Replace.{ReplaceFails, replace_value_for_key-Outcome}
use imx8mp_pipe_line_setup.Frame.Edit.Insert.{
  AppendFails, bridge_append_field-Outcome, bridge_append_motor_fields-Outcome,
}
use imx8mp_pipe_line_setup.Frame.Edit.Reformat.{Reformatted, bridge_reformat_joystick-Reformatted}
use imx8mp_pipe_line_setup.Frame.Edit.Reread.{bridge_reformat_joystick-reread}
use imx8mp_pipe_line_setup.Frame.Edit.Roundtrip.{replace_value_for_key-extract}
use imx8mp_pipe_line_setup.Frame.Stamp.{Stamped, Times, bridge_stamp_frame}
use imx8mp_pipe_line_setup.Frame.Stamp.Outcome.{StampOutcome}
use imx8mp_pipe_line_setup.Frame.Stamp.Layout.{bridge_stamp_frame-StampOutcome}
use imx8mp_pipe_line_setup.Server.{max_bridged_frame_len}
use imx8mp_pipe_line_setup.Server.Capacity.{LongNumber, bridge_stamp_frame-fits}
use imx8mp_pipe_line_setup.Tests.{frame, storage, length-storage}

abbrev received : ℤ
received = pos 2_000_000

abbrev forward : ℤ
forward = pos 2_100_000

-- A buffer that begins with the frame.
abbrev buffer : Bytes
buffer = frame ++ storage

buffer_room : 1024 ≤ length buffer
buffer_room = omega (arith, length-append frame storage, length-storage)

bridge_stamp_frame-StampOutcome_example :
    (r : Stamped ℤ) × (bridge_stamp_frame frame received forward storage 1024 ≡ some r)
    × StampOutcome frame received forward storage 1024 r
bridge_stamp_frame-StampOutcome_example =
    bridge_stamp_frame-StampOutcome frame received forward storage 1024
      (omega (arith, length-storage)) (omega arith)

bridge_stamp_frame-fits_example :
    (r : Stamped ℤ) × (bridge_stamp_frame frame received forward storage max_bridged_frame_len
      ≡ some r)
    × (((n : ℕ) × (r.ret ≡ pos n) × (n ≤ max_bridged_frame_len))
        ⊎ ((t : Times ℤ) × (r.times ≡ some t) × LongNumber frame received forward t))
bridge_stamp_frame-fits_example =
    bridge_stamp_frame-fits frame received forward storage (omega arith)
      (omega (arith, length-storage))

bridge_append_field-Outcome_example :
    (r : Edited) × (bridge_append_field buffer 52 1024 (codes "key") received ≡ some r)
    × Outcome
        (AppendFails 128 (named_field (codes "key") received) 1024 (take 52 buffer))
        (IsInsertion (named_field (codes "key") received) (take 52 buffer))
        buffer
        1024
        r
bridge_append_field-Outcome_example =
    bridge_append_field-Outcome buffer 52 1024 (omega arith) buffer_room (omega arith) (codes "key")
      received

bridge_append_motor_fields-Outcome_example :
    (r : Edited) × (bridge_append_motor_fields buffer 52 1024 received forward received forward
      ≡ some r)
    × Outcome
        (AppendFails 192 (motor_fields received forward received forward) 1024 (take 52 buffer))
        (IsInsertion (motor_fields received forward received forward) (take 52 buffer))
        buffer
        1024
        r
bridge_append_motor_fields-Outcome_example =
    bridge_append_motor_fields-Outcome buffer 52 1024 (omega arith) buffer_room (omega arith)
      received forward received forward

replace_value_for_key-Outcome_example :
    (r : Edited) × (replace_value_for_key buffer 52 1024 joystick_x_key received ≡ some r)
    × Outcome
        (ReplaceFails joystick_x_key 1024 (micro_stdio.fixed 8 received) (take 52 buffer))
        (IsReplaced joystick_x_key (micro_stdio.fixed 8 received) (take 52 buffer))
        buffer
        1024
        r
replace_value_for_key-Outcome_example =
    replace_value_for_key-Outcome buffer 52 1024 joystick_x_key received (omega arith) (omega arith)
      buffer_room (omega arith)

bridge_reformat_joystick-Reformatted_example :
    (r : Edited) × (bridge_reformat_joystick buffer 52 1024 received forward ≡ some r)
    × Reformatted
        (micro_stdio.fixed 8 received)
        (micro_stdio.fixed 8 forward)
        1024
        (take 52 buffer)
        buffer
        r
bridge_reformat_joystick-Reformatted_example =
    bridge_reformat_joystick-Reformatted buffer 52 1024 received forward (omega arith) buffer_room
      (omega arith)

bridge_extract_joystick-Extracted_example :
    (x : Option ℤ) × (y : Option ℤ) × Extracted joystick_x_key frame x
    × Extracted joystick_y_key frame y
    × (bridge_extract_joystick frame ≡ both x y)
bridge_extract_joystick-Extracted_example = bridge_extract_joystick-Extracted frame

extract_double_field-Extracted_example :
    Extracted joystick_y_key frame (extract_double_field {W = ℤ} frame joystick_y_key)
extract_double_field-Extracted_example =
    extract_double_field-Extracted frame joystick_y_key (omega arith)

find_substr-IsFirst_example : IsFirst joystick_y_key frame (find_substr frame joystick_y_key)
find_substr-IsFirst_example = find_substr-IsFirst frame joystick_y_key (omega arith)

-- The frame with another x.
abbrev with_x : Bytes
with_x = codes "{\"ntp_time\":1.5,\"joystick_x\":2.00000000,\"joystick_y\":-0.25}"

x_replaced :
    replace_value_for_key buffer 52 1024 joystick_x_key received
    ≡ some (record { ret = pos 59; buf = with_x ++ drop 7 storage })
unfolding replace_value_for_key find_substr find_value_span snprintf memcpy memmove to_int
x_replaced = refl

replace_value_for_key-extract_example :
    extract_double_field (take 59 (with_x ++ drop 7 storage)) joystick_x_key
    ≡ some (micro_stdio.strtod (take 63 (micro_stdio.fixed 8 received)))
replace_value_for_key-extract_example =
    replace_value_for_key-extract buffer 52 1024 joystick_x_key received
      (record { ret = pos 59; buf = with_x ++ drop 7 storage }) 59 16 (omega arith) (omega arith)
      buffer_room (omega arith) (_, refl)
      (refl, (refl, (refl, (refl, (refl, (refl, (refl, (refl, (refl, (refl, tt))))))))))
      (omega arith) x_replaced refl

-- The frame with another position.
abbrev with_both : Bytes
with_both = codes "{\"ntp_time\":1.5,\"joystick_x\":2.00000000,\"joystick_y\":2.10000000}"

both_replaced :
    bridge_reformat_joystick buffer 52 1024 received forward
    ≡ some (record { ret = pos 64; buf = with_both ++ drop 12 storage })
unfolding bridge_reformat_joystick replace_value_for_key find_substr find_value_span snprintf memcpy
    memmove to_int
both_replaced = refl

bridge_reformat_joystick-reread_example :
    bridge_extract_joystick (take 64 (with_both ++ drop 12 storage))
    ≡ some (
      micro_stdio.strtod (take 63 (micro_stdio.fixed 8 received)),
      micro_stdio.strtod (take 63 (micro_stdio.fixed 8 forward)),
    )
bridge_reformat_joystick-reread_example =
    bridge_reformat_joystick-reread buffer 52 1024 received forward
      (record { ret = pos 64; buf = with_both ++ drop 12 storage }) 64 16 33 (omega arith)
      buffer_room (omega arith)
      (refl, (refl, (refl, (refl, (refl, (refl, (refl, (refl, (refl, (refl, tt))))))))))
      (omega arith)
      (refl, (refl, (refl, (refl, (refl, (refl, (refl, (refl, (refl, (refl, tt))))))))))
      (omega arith) (_, refl) (_, refl) both_replaced refl

-- The position that the frame's text has.
read_frame : bridge_extract_joystick frame ≡ some (pos 500_000, negsuc 249_999)
unfolding bridge_extract_joystick find_substr find_value_span parse_double_span
read_frame = refl

-- The stamp on the frame, as it stands in the storage.
stamped_frame :
    Option.map
      (λ (r : Stamped ℤ). take (size_of r.ret) r.out)
      (bridge_stamp_frame frame received forward (replicate 240 0) 240)
    ≡ some (
        codes
          "{\"controller_sent_ntp_time\":1.5,\"ntp_time\":2.100000,\"base_station_processing_time\":0.100000,\"frame_transfer_time\":0.500000,\"controller_to_base_station_received_ntp_time\":2.000000,\"joystick_x\":0.5,\"joystick_y\":-0.25}")
unfolding bridge_stamp_frame find_sent_time_key find_substr find_value_span parse_double_span
    snprintf memcpy append_all ◌-ℤ◌ to_int
stamped_frame = refl

-- A position whose y has no room: the result is -1, and yet x has been replaced in the buffer.
torn_frame :
    Option.map {B = ℤ × Bytes}
      (λ (r : Edited). (r.ret, take 59 r.buf))
      (bridge_reformat_joystick buffer 52 1024 (pos 500_000) (pos (10 ^ 36)))
    ≡ some (minus_one, codes "{\"ntp_time\":1.5,\"joystick_x\":0.50000000,\"joystick_y\":-0.25}")
unfolding bridge_reformat_joystick replace_value_for_key find_substr find_value_span snprintf memcpy
    memmove ◌-ℤ◌ to_int
torn_frame = refl
