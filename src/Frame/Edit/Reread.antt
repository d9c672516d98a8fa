-- ===== src/Frame/Edit/Reread.antt =====
-- What `bridge_extract_joystick` reads of a text that `bridge_reformat_joystick` has made.
use mathlib.Core.Path.{subst}
use imx8mp_pipe_line_setup.Prelude.{
  ℕ, ◌^◌, ◌≤◌, ◌<◌, ◌≡◌, refl, sym, ap, ◌∙◌, inl, inr, Option-cases, some, arith, length, take,
  Bytes, some_inj, >>=-some,
}
use imx8mp_pipe_line_setup.Prelude.Int.{pos, pos_part}
use imx8mp_pipe_line_setup.Double.{Stdio}
use imx8mp_pipe_line_setup.Frame.Search.{OccursAt, find_substr, find_substr-IsFirst}
use imx8mp_pipe_line_setup.Frame.Span.{is_number_char, AllPass}
use imx8mp_pipe_line_setup.Frame.Keyed.{IsKeyed, find_value_span-Cuts}
use imx8mp_pipe_line_setup.Frame.Keyed.Unique.{IsKeyed-OccursAt}
use imx8mp_pipe_line_setup.Frame.Keyed.Beside.{IsKeyed-beside}
use imx8mp_pipe_line_setup.Frame.Extract.{
  joystick_x_key, joystick_y_key, extract_double_field, bridge_extract_joystick,
}
use imx8mp_pipe_line_setup.Frame.Extract.Read.{IsKeyed-read}
use imx8mp_pipe_line_setup.Frame.Edit.{Edited, bridge_reformat_joystick}
use imx8mp_pipe_line_setup.Frame.Edit.Outcome.{IsReplaced, IsReplacement}
use imx8mp_pipe_line_setup.Frame.Edit.Reformat.{
  Reformatted, refused, torn, reformatted, bridge_reformat_joystick-Reformatted,
}
use imx8mp_pipe_line_setup.Frame.Edit.Roundtrip.{result-IsKeyed, result_value}
use imx8mp_pipe_line_setup.Frame.Edit.JoystickKeys.{x_y-IsApart, y_x-IsApart}

-- A text in which a key occurs has a first one.
OccursAt-IsKeyed :
    (key text : Bytes) (i : ℕ) → 0 < length key → OccursAt key text i → IsKeyed key text
OccursAt-IsKeyed key text i ne o = elim (Option-cases (find_substr text key)) [
  | inl absent ↦ absurd (rw absent at (find_substr-IsFirst text key ne) i o)
  | inr (at, found) ↦ (find_value_span-Cuts key text at ne found).parts
]

module _ (x_digits text : Bytes) (x_numeric : AllPass is_number_char x_digits) where
  -- The key of y is still there after x has been replaced.
  y_stays :
      (half : Bytes) (j : ℕ)
      → OccursAt joystick_y_key text j
      → IsReplacement joystick_x_key x_digits text half
      → IsKeyed joystick_y_key half
  y_stays half j o replaced =
      let kept =
        IsKeyed-beside joystick_y_key joystick_x_key x_digits text
          (OccursAt-IsKeyed joystick_y_key text j (omega arith) o) replaced.parts (λ rest. refl)
          (λ rest. refl) y_x-IsApart x_numeric (omega arith) in
      subst (IsKeyed joystick_y_key) (sym replaced.result_is) kept.0

module _ {W : Type 0} ⦃s : Stdio W⦄ (x_digits y_digits text : Bytes)
    (x_numeric : AllPass is_number_char x_digits) (x_digit : 0 < length x_digits)
    (y_numeric : AllPass is_number_char y_digits) (y_digit : 0 < length y_digits) where
  x_read :
      (half whole : Bytes)
      → IsReplacement joystick_x_key x_digits text half
      → IsReplacement joystick_y_key y_digits half whole
      → extract_double_field whole joystick_x_key ≡ some (s.strtod (take 63 x_digits))
  x_read half whole x_replaced y_replaced =
      let first = result-IsKeyed joystick_x_key x_digits text half x_replaced x_numeric x_digit in
      let value_is = result_value joystick_x_key x_digits text half x_replaced x_numeric x_digit in
      let (kept, same) =
        IsKeyed-beside joystick_x_key joystick_y_key y_digits half first y_replaced.parts
          (λ rest. refl) (λ rest. refl) x_y-IsApart y_numeric (omega arith) in
      let whole_value = same ∙ value_is in
      ap (λ t. extract_double_field t joystick_x_key) y_replaced.result_is
      ∙ IsKeyed-read joystick_x_key _ kept (omega arith)
          (omega (arith, x_digit, ap length whole_value))
      ∙ ap (λ v. some (s.strtod (take 63 v))) whole_value

  y_read :
      (half whole : Bytes)
      → IsReplacement joystick_y_key y_digits half whole
      → extract_double_field whole joystick_y_key ≡ some (s.strtod (take 63 y_digits))
  y_read half whole replaced =
      let keyed = result-IsKeyed joystick_y_key y_digits half whole replaced y_numeric y_digit in
      let value_is = result_value joystick_y_key y_digits half whole replaced y_numeric y_digit in
      IsKeyed-read joystick_y_key whole keyed (omega arith)
        (omega (arith, y_digit, ap length value_is))
      ∙ ap (λ v. some (s.strtod (take 63 v))) value_is

  both_read :
      (half whole : Bytes) (i j : ℕ)
      → OccursAt joystick_x_key text i
      → OccursAt joystick_y_key text j
      → IsReplaced joystick_x_key x_digits text half
      → IsReplaced joystick_y_key y_digits half whole
      → bridge_extract_joystick whole
        ≡ some (s.strtod (take 63 x_digits), s.strtod (take 63 y_digits))
  unfolding bridge_extract_joystick
  both_read half whole i j o o' (inl (same, never)) y_replaced = absurd (never i o)
  both_read half whole i j o o' (inr x_replaced) (inl (same, never)) =
      let keyed = y_stays x_digits text x_numeric half j o' x_replaced in
      absurd (never (length keyed.before) (IsKeyed-OccursAt joystick_y_key half keyed))
  both_read half whole i j o o' (inr x_replaced) (inr y_replaced) =
      >>=-some _ (x_read half whole x_replaced y_replaced)
        (>>=-some _ (y_read half whole y_replaced) refl)

module _ {W : Type 0} ⦃s : Stdio W⦄ where
  -- A position that bridge_reformat_joystick has written is read back whole: if the text has both keys,
  -- in either order, and the call returns a length, bridge_extract_joystick finds in the new text the
  -- numbers that strtod makes of the first 63 bytes of the two renderings, so the second replacement
  -- leaves the first value as it is. Each rendering is one or more number characters, and the text is
  -- within cap, cap within the buffer and less than 2 ^ 31.
  pub bridge_reformat_joystick-reread :
      (buf : Bytes) (len cap : ℕ) (x y : W) (r : Edited) (n i j : ℕ)
      → len ≤ cap
      → cap ≤ length buf
      → cap < 2 ^ 31
      → AllPass is_number_char (s.fixed 8 x)
      → 0 < length (s.fixed 8 x)
      → AllPass is_number_char (s.fixed 8 y)
      → 0 < length (s.fixed 8 y)
      → OccursAt joystick_x_key (take len buf) i
      → OccursAt joystick_y_key (take len buf) j
      → bridge_reformat_joystick buf len cap x y ≡ some r
      → r.ret ≡ pos n
      → bridge_extract_joystick (take n r.buf)
        ≡ some (s.strtod (take 63 (s.fixed 8 x)), s.strtod (take 63 (s.fixed 8 y)))
  bridge_reformat_joystick-reread buf len cap x y r n i j fits room small x_numeric x_digit
        y_numeric y_digit x_there y_there returns ret_is =
      let (r', returns', outcome) =
        bridge_reformat_joystick-Reformatted buf len cap x y fits room small in
      let same : r' ≡ r = some_inj (sym returns' ∙ returns) in
      elim (subst (Reformatted (s.fixed 8 x) (s.fixed 8 y) cap (take len buf) buf) same outcome) [
        | refused why ret kept ↦ absurd cc
        | torn half x_replaced why short ret holds ↦ absurd cc
        | reformatted half whole x_replaced y_replaced short ret holds ↦
            ap bridge_extract_joystick
              (ap (λ k. take k r.buf) (ap pos_part (sym ret_is ∙ ret)) ∙ holds.text_is)
            ∙ both_read (s.fixed 8 x) (s.fixed 8 y) (take len buf) x_numeric x_digit y_numeric
                y_digit half whole i j x_there y_there x_replaced y_replaced
      ]
