-- ===== src/Frame/Edit.antt =====
-- The writing side of src/frame_bridge.cpp that edits a buffer in place: `replace_value_for_key`,
-- `bridge_reformat_joystick`, `insert_before_closing_brace`, `bridge_append_motor_fields` and
-- `bridge_append_field`. The first `len` bytes of `buf` are the text, and `cap` bounds its length.
pub mod Outcome
pub mod Replace
pub mod Insert
pub mod Reformat
pub mod Roundtrip
pub mod JoystickKeys
pub mod Reread
pub mod Plain
use imx8mp_pipe_line_setup.Prelude.{
  ℕ, zero, suc, ◌+◌, ◌-◌, Bool, Option, none, some, ◌++◌, ◌==◌, ltb, if◌then◌else◌, length, take,
  get_or, Bytes, codes, ◌>>=◌,
}
use imx8mp_pipe_line_setup.Prelude.Int.{ℤ, minus_one, to_int, ltb_ℤ, pos}
use imx8mp_pipe_line_setup.Memory.{memcpy, memmove, Printed, snprintf, did_not_fit, size_of}
use imx8mp_pipe_line_setup.Double.{Stdio}
use imx8mp_pipe_line_setup.Frame.Search.{find_substr}
use imx8mp_pipe_line_setup.Frame.Span.{Span, find_value_span}
use imx8mp_pipe_line_setup.Frame.Extract.{joystick_x_key, joystick_y_key}

-- The return value, and the buffer afterwards. A memory fault is `none`.
pub record Edited : Type 0 where
  pub ret : ℤ
  pub buf : Bytes

-- `replace_value_for_key` from the rendering of the value on.
pub replace_at : Bytes → ℕ → ℕ → Span → Printed → Option Edited
replace_at buf len cap span printed =
    let value_len = size_of printed.len in
    let tail_len = len - span.value_end in
    let new_len = span.value_start + value_len + tail_len in
    if did_not_fit printed.len 32
    then some (record { ret = minus_one; buf = buf })
    else if ltb cap new_len
    then some (record { ret = minus_one; buf = buf })
    else (do
      moved ← memmove buf (span.value_start + value_len) span.value_end tail_len
      filled ← memcpy moved span.value_start printed.stored value_len
      some (record { ret = to_int new_len; buf = filled }))

-- `close_pos` after the loop that walks back from `len` to just behind a closing brace.
pub close_pos : Bytes → ℕ → ℕ
close_pos buf zero = zero
close_pos buf (suc p) = if get_or buf p 0 == b'}' then suc p else close_pos buf p

-- From the index of the brace on.
pub insert_at : Bytes → ℕ → ℕ → Bytes → ℕ → ℕ → Option Edited
insert_at buf len cap text text_len at =
    let tail_len = len - at in
    let total = at + text_len + tail_len in
    if ltb cap total then some (record { ret = minus_one; buf = buf }) else (do
      moved ← memmove buf (at + text_len) at tail_len
      filled ← memcpy moved at text text_len
      some (record { ret = to_int total; buf = filled }))

-- The branch on `close_pos == 0`, and the step back onto the brace.
insert_behind : ℕ → Bytes → ℕ → ℕ → Bytes → ℕ → Option Edited
unfolding insert_at
insert_behind zero buf len cap text text_len = some (record { ret = minus_one; buf = buf })
insert_behind (suc at) buf len cap text text_len = insert_at buf len cap text text_len at

unfoldable pub insert_before_closing_brace : Bytes → ℕ → ℕ → Bytes → ℕ → Option Edited
unfolding close_pos insert_behind
insert_before_closing_brace buf len cap text text_len =
    insert_behind (close_pos buf len) buf len cap text text_len

-- Both appending functions: a rendering that does not fit its local array is refused.
insert_printed : Bytes → ℕ → ℕ → ℕ → Printed → Option Edited
insert_printed buf len cap size printed =
    if did_not_fit printed.len size
    then some (record { ret = minus_one; buf = buf })
    else insert_before_closing_brace buf len cap printed.stored (size_of printed.len)

module _ {W : Type 0} ⦃s : Stdio W⦄ where
  unfoldable pub replace_value_for_key : Bytes → ℕ → ℕ → Bytes → W → Option Edited
  unfolding replace_at
  replace_value_for_key buf len cap key value = elim (find_substr (take len buf) key) [
    | none ↦ some (record { ret = to_int len; buf = buf })
    | some key_start ↦
        replace_at buf len cap (find_value_span (take len buf) (key_start + length key))
          (snprintf 32 (s.fixed 8 value))
  ]

  unfoldable pub bridge_reformat_joystick : Bytes → ℕ → ℕ → W → W → Option Edited
  bridge_reformat_joystick buf len cap joystick_x joystick_y = do
    first ← replace_value_for_key buf len cap joystick_x_key joystick_x
    (if ltb_ℤ first.ret (pos 0)
        then some (record { ret = minus_one; buf = first.buf })
        else replace_value_for_key first.buf (size_of first.ret) cap joystick_y_key joystick_y)

  -- `,"motor_1_pos":%.6f,"motor_2_pos":%.6f,"motor_3_pos":%.6f,"motor_4_insertion_pos":%.6f`
  pub motor_fields : W → W → W → W → Bytes
  motor_fields m1 m2 m3 m4 =
      codes ",\"motor_1_pos\":"
      ++ (s.fixed 6 m1
          ++ (codes ",\"motor_2_pos\":"
              ++ (s.fixed 6 m2
                  ++ (codes ",\"motor_3_pos\":"
                      ++ (s.fixed 6 m3 ++ (codes ",\"motor_4_insertion_pos\":" ++ s.fixed 6 m4))))))

  unfoldable pub bridge_append_motor_fields : Bytes → ℕ → ℕ → W → W → W → W → Option Edited
  unfolding insert_printed motor_fields
  bridge_append_motor_fields buf len cap m1 m2 m3 m4 =
      insert_printed buf len cap 192 (snprintf 192 (motor_fields m1 m2 m3 m4))

  -- `,"<key>":%.6f`
  pub named_field : Bytes → W → Bytes
  named_field key value = codes ",\"" ++ (key ++ (codes "\":" ++ s.fixed 6 value))

  unfoldable pub bridge_append_field : Bytes → ℕ → ℕ → Bytes → W → Option Edited
  unfolding insert_printed named_field
  bridge_append_field buf len cap key value =
      insert_printed buf len cap 128 (snprintf 128 (named_field key value))
