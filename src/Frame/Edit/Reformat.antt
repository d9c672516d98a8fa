-- ===== src/Frame/Edit/Reformat.antt =====
-- `bridge_reformat_joystick`: two replacements, of which the second can fail after the first is done.
use mathlib.Core.Path.{subst}
use imx8mp_pipe_line_setup.Prelude.{
  ℕ, ◌≤◌, ◌<◌, ◌^◌, ◌≡◌, refl, sym, ◌∙◌, some, arith, length, take, Bytes, >>=-some,
}
use imx8mp_pipe_line_setup.Prelude.Int.{pos, minus_one, not_negative}
use imx8mp_pipe_line_setup.Memory.Splice.{Holds}
use imx8mp_pipe_line_setup.Double.{Stdio}
use imx8mp_pipe_line_setup.Frame.Extract.{joystick_x_key, joystick_y_key}
use imx8mp_pipe_line_setup.Frame.Edit.Outcome.{Outcome, failed, edited, IsReplaced}
use imx8mp_pipe_line_setup.Frame.Edit.Replace.{ReplaceFails, replace_value_for_key-Outcome}
use imx8mp_pipe_line_setup.Frame.Edit.{Edited, bridge_reformat_joystick}

-- The texts `x_digits` and `y_digits` take the places of the two values; or the first does not fit and the
-- buffer is as it was; or only the second does not, and the buffer holds the text with the first.
pub data Reformatted (x_digits y_digits : Bytes) (cap : ℕ) (text buf : Bytes) (r : Edited)
    : Type 0 where
  refused :
      ReplaceFails joystick_x_key cap x_digits text
      → r.ret ≡ minus_one
      → r.buf ≡ buf
      → Reformatted x_digits y_digits cap text buf r
  torn :
      (half : Bytes)
      → IsReplaced joystick_x_key x_digits text half
      → ReplaceFails joystick_y_key cap y_digits half
      → length half ≤ cap
      → r.ret ≡ minus_one
      → Holds r.buf half (length buf)
      → Reformatted x_digits y_digits cap text buf r
  reformatted :
      (half whole : Bytes)
      → IsReplaced joystick_x_key x_digits text half
      → IsReplaced joystick_y_key y_digits half whole
      → length whole ≤ cap
      → r.ret ≡ pos (length whole)
      → Holds r.buf whole (length buf)
      → Reformatted x_digits y_digits cap text buf r

module _ {W : Type 0} ⦃s : Stdio W⦄ (buf : Bytes) (len cap : ℕ) (x y : W) (fits : len ≤ cap)
    (room : cap ≤ length buf) (small : cap < 2 ^ 31) where
  -- The second replacement, on what the first has left.
  second-Reformatted :
      (half : Bytes) (first r : Edited)
      → IsReplaced joystick_x_key (s.fixed 8 x) (take len buf) half
      → length half ≤ cap
      → Holds first.buf half (length buf)
      → Outcome
          (ReplaceFails joystick_y_key cap (s.fixed 8 y) half)
          (IsReplaced joystick_y_key (s.fixed 8 y) half)
          first.buf
          cap
          r
      → Reformatted (s.fixed 8 x) (s.fixed 8 y) cap (take len buf) buf r
  second-Reformatted half first r replaced short holds (failed why ret_is buf_is) =
      torn half replaced why short ret_is
        (subst (λ b. Holds b half (length buf)) (sym buf_is) holds)
  second-Reformatted half first r replaced short holds
        (edited whole replaced' short' ret_is holds') =
      reformatted half whole replaced replaced' short' ret_is
        (record { text_is = holds'.text_is; size_is = holds'.size_is ∙ holds.size_is })

  -- bridge_reformat_joystick, on a text within cap, cap within the buffer and less than 2 ^ 31, does not
  -- fault. It is done whole, or returns -1: with the buffer as it was where x does not fit, and with x
  -- already replaced where only y does not.
  pub bridge_reformat_joystick-Reformatted :
      (r : Edited) × (bridge_reformat_joystick buf len cap x y ≡ some r)
      × Reformatted (s.fixed 8 x) (s.fixed 8 y) cap (take len buf) buf r
  unfolding bridge_reformat_joystick
  bridge_reformat_joystick-Reformatted =
      let (first, done, outcome) =
        replace_value_for_key-Outcome buf len cap joystick_x_key x (omega arith) fits room small in
      elim outcome [
        | failed why ret_is buf_is ↦ (
          record { ret = minus_one; buf = first.buf },
          >>=-some _ done (rw ret_is),
          refused why refl buf_is,
        )
        | edited half replaced short ret_is holds ↦
            let (r, done', outcome') =
              replace_value_for_key-Outcome first.buf (length half) cap joystick_y_key y
                (omega arith) short (omega (arith, holds.size_is)) small in
            (
              r,
              >>=-some _ done (rw (ret_is, not_negative (length half)) done'),
              second-Reformatted half first r replaced short holds (rw holds.text_is at outcome'),
            )
      ]
