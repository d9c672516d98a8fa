-- ===== src/Frame/Edit/Plain.antt =====
-- What src/frame_bridge.cpp does to a text, without the buffers that it works in: each edit is a function
-- from a text to the new one, and `none` where the edit returns -1.
pub mod Replace
pub mod Insert
pub mod Bounds
use imx8mp_pipe_line_setup.Prelude.{
  ℕ, suc, ◌+◌, Option, none, some, [], ◌∷◌, ◌++◌, ◌==◌, ltb, leb, if◌then◌else◌, length, take, drop,
  Bytes,
}
use imx8mp_pipe_line_setup.Prelude.Int.{pos, minus_one}
use imx8mp_pipe_line_setup.Double.{Stdio}
use imx8mp_pipe_line_setup.Frame.Search.{find_substr}
use imx8mp_pipe_line_setup.Frame.Span.{Span, find_value_span}
use imx8mp_pipe_line_setup.Frame.Extract.{joystick_x_key, joystick_y_key}
use imx8mp_pipe_line_setup.Frame.Edit.{Edited}

-- The storage after a text has been put in front of what it holds.
abbrev pub overwrite : Bytes → Bytes → Bytes
overwrite text buf = text ++ drop (length text) buf

-- What an edit in place returns and leaves.
abbrev pub write_back : Bytes → Option Bytes → Edited
write_back buf none = record { ret = minus_one; buf = buf }
write_back buf (some text) = record { ret = pos (length text); buf = overwrite text buf }

-- Only a text within `cap` is taken.
abbrev pub within : ℕ → Bytes → Option Bytes
within cap text = if ltb cap (length text) then none else some text

-- The bytes of a span give way to `digits`, of which there may be 31.
pub put_at : ℕ → Bytes → Bytes → Span → Option Bytes
put_at cap digits text span =
    if leb 32 (length digits)
    then none
    else within cap (take span.value_start text ++ (digits ++ drop span.value_end text))

unfoldable pub replace_text : ℕ → Bytes → Bytes → Bytes → Option Bytes
unfolding put_at
replace_text cap key digits text = elim (find_substr text key) [
  | none ↦ some text
  | some at ↦ put_at cap digits text (find_value_span text (at + length key))
]

-- The index of the last closing brace.
pub last_brace : Bytes → Option ℕ
last_brace [] = none
last_brace (c ∷ cs) = elim (last_brace cs) [
  | some i ↦ some (suc i)
  | none ↦ if c == b'}' then some 0 else none
]

pub insert_after : ℕ → Bytes → Bytes → Option ℕ → Option Bytes
insert_after cap fields text none = none
insert_after cap fields text (some at) = within cap (take at text ++ (fields ++ drop at text))

-- Fields of less than `size` bytes before the last closing brace.
unfoldable pub insert_text : ℕ → ℕ → Bytes → Bytes → Option Bytes
unfolding last_brace insert_after
insert_text cap size fields text =
    if leb size (length fields) then none else insert_after cap fields text (last_brace text)

-- The new text, or the old one where there is none.
abbrev pub or_old : Bytes → Option Bytes → Bytes
or_old text none = text
or_old text (some new) = new

-- After x has been put in; where y is refused, the text is cut at its old length, and a shorter one is
-- followed by the end of the old one.
unfoldable pub put_y : ℕ → Bytes → Bytes → Option Bytes → Bytes
unfolding replace_text
put_y cap y_digits text none = text
put_y cap y_digits text (some half) = elim (replace_text cap joystick_y_key y_digits half) [
  | some whole ↦ whole
  | none ↦ take (length text) (overwrite half text)
]

-- The joystick position reformatted, as `bridge_server_forward` takes the result.
unfoldable pub reformat_text : ℕ → Bytes → Bytes → Bytes → Bytes
unfolding put_y
reformat_text cap x_digits y_digits text =
    put_y cap y_digits text (replace_text cap joystick_x_key x_digits text)
