-- ===== src/Frame/Extract.antt =====
-- The reading side of src/frame_bridge.cpp: `find_sent_time_key`, `bridge_extract_sent_time`,
-- `extract_double_field` and `bridge_extract_joystick`. A result `none` is the return value -1, with the
-- outputs untouched, and `some` is 0 with the outputs filled.
pub mod Value
pub mod Read
use imx8mp_pipe_line_setup.Prelude.{
  ℕ, ◌+◌, Option, none, some, ◌==◌, if◌then◌else◌, length, Bytes, codes, ◌>>=◌,
}
use imx8mp_pipe_line_setup.Double.{Stdio}
use imx8mp_pipe_line_setup.Frame.Search.{find_substr}
use imx8mp_pipe_line_setup.Frame.Span.{find_value_span, parse_double_span}

abbrev pub ntp_key : Bytes
ntp_key = codes "\"ntp_time\":"

abbrev pub timestamp_key : Bytes
timestamp_key = codes "\"timestamp\":"

abbrev pub joystick_x_key : Bytes
joystick_x_key = codes "\"joystick_x\":"

abbrev pub joystick_y_key : Bytes
joystick_y_key = codes "\"joystick_y\":"

pub record KeyAt : Type 0 where
  pub key_start : ℕ
  pub key_len : ℕ

unfoldable pub find_sent_time_key : Bytes → Option KeyAt
find_sent_time_key input = elim (find_substr input ntp_key) [
  | some at ↦ some (record { key_start = at; key_len = length ntp_key })
  | none ↦ elim (find_substr input timestamp_key) [
    | some at ↦ some (record { key_start = at; key_len = length timestamp_key })
    | none ↦ none
  ]
]

module _ {W : Type 0} ⦃s : Stdio W⦄ where
  -- The value behind a key that ends at index `key_end`.
  pub value_at : Bytes → ℕ → Option W
  value_at input key_end =
      let span = find_value_span input key_end in
      if span.value_start == span.value_end
      then none
      else some (parse_double_span input span.value_start span.value_end)

  unfoldable pub bridge_extract_sent_time : Bytes → Option W
  unfolding value_at
  bridge_extract_sent_time input = do
    key ← find_sent_time_key input
    value_at input (key.key_start + key.key_len)

  unfoldable pub extract_double_field : Bytes → Bytes → Option W
  unfolding value_at
  extract_double_field input key = do
    key_start ← find_substr input key
    value_at input (key_start + length key)

  unfoldable pub bridge_extract_joystick : Bytes → Option (W × W)
  unfolding extract_double_field
  bridge_extract_joystick input = do
    x ← extract_double_field input joystick_x_key
    y ← extract_double_field input joystick_y_key
    some (x, y)
