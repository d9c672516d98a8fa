-- ===== src/Server/Plain/Edits.antt =====
-- The edits of the payload against those of its text.
use imx8mp_pipe_line_setup.Prelude.{
  ℕ, ◌≤◌, ◌≡◌, refl, ap, ◌∙◌, inl, inr, Option, none, some, arith, length, Bytes, >>=-some,
  Option-cases, length-take,
}
use imx8mp_pipe_line_setup.Prelude.Int.{not_negative}
use imx8mp_pipe_line_setup.Double.{Stdio}
use imx8mp_pipe_line_setup.Frame.Extract.{joystick_x_key, joystick_y_key}
use imx8mp_pipe_line_setup.Frame.Edit.{
  Edited, bridge_append_field, bridge_append_motor_fields, bridge_reformat_joystick, motor_fields,
  named_field,
}
use imx8mp_pipe_line_setup.Frame.Edit.Plain.{
  overwrite, write_back, or_old, replace_text, put_y, reformat_text,
}
use imx8mp_pipe_line_setup.Frame.Edit.Plain.Replace.{replace_value_for_key-eq}
use imx8mp_pipe_line_setup.Frame.Edit.Plain.Insert.{
  bridge_append_field-eq, bridge_append_motor_fields-eq,
}
use imx8mp_pipe_line_setup.Frame.Edit.Plain.Bounds.{
  Within, replace_text-Within, insert_text-Within, take-overwrite, length-overwrite,
  take-overwrite_prefix,
}
use imx8mp_pipe_line_setup.Motor.{MotorOut}
use imx8mp_pipe_line_setup.Server.{
  Text, max_bridged_frame_len, corrected_key, try_edit, splice_motor, splice_joystick,
}
use imx8mp_pipe_line_setup.Server.Edits.{IsText, contents}
use imx8mp_pipe_line_setup.Server.Plain.{corrected_text, motor_text, joystick_text}

-- A step that does not fault and leaves storage of the same size with a given text.
abbrev pub Leaves : Bytes → Option Text → Type 0
Leaves text o = (t : Text) × (o ≡ some t) × IsText t × (contents t ≡ text)

try_edit-Leaves :
    (edit : Bytes → ℕ → ℕ → Option Edited) (t : Text) (o : Option Bytes)
    → IsText t
    → edit t.buf t.n max_bridged_frame_len ≡ some (write_back t.buf o)
    → Within max_bridged_frame_len o
    → Leaves (or_old (contents t) o) (try_edit edit t)
unfolding try_edit
try_edit-Leaves edit t none i e w = (t, >>=-some _ e refl, i, refl)
try_edit-Leaves edit t (some text) i e w = (
  record { buf = overwrite text t.buf; n = length text },
  >>=-some _ e (rw (not_negative (length text)) refl),
  record {
    storage = length-overwrite text t.buf (omega (arith, i.storage)) ∙ i.storage;
    within = w;
  },
  take-overwrite text t.buf,
)

module _ {W : Type 0} ⦃s : Stdio W⦄ where
  pub append_field-Leaves :
      (corrected : W) (t : Text)
      → IsText t
      → Leaves
          (corrected_text corrected (contents t))
          (try_edit (λ buf n cap. bridge_append_field buf n cap corrected_key corrected) t)
  append_field-Leaves corrected t i =
      try_edit-Leaves (λ buf n cap. bridge_append_field buf n cap corrected_key corrected) t _ i
        (bridge_append_field-eq t.buf t.n max_bridged_frame_len i.within (omega (arith, i.storage))
          (omega arith) corrected_key corrected)
        (insert_text-Within max_bridged_frame_len 128 (named_field corrected_key corrected)
          (contents t))

  splice_motor-Leaves :
      (motor_out : Option (MotorOut W)) (t : Text)
      → IsText t
      → Leaves (motor_text motor_out (contents t)) (splice_motor motor_out t)
  unfolding splice_motor
  splice_motor-Leaves none t i = (t, refl, i, refl)
  splice_motor-Leaves (some m) t i =
      try_edit-Leaves (λ buf n cap. bridge_append_motor_fields buf n cap m.m1 m.m2 m.m3 m.m4) t _ i
        (bridge_append_motor_fields-eq t.buf t.n max_bridged_frame_len i.within
          (omega (arith, i.storage)) (omega arith) m.m1 m.m2 m.m3 m.m4)
        (insert_text-Within max_bridged_frame_len 192 (motor_fields m.m1 m.m2 m.m3 m.m4)
          (contents t))

  module _ (x y : W) (t : Text) (i : IsText t) where
    abbrev reformat : Bytes → ℕ → ℕ → Option Edited
    reformat buf n cap = bridge_reformat_joystick buf n cap x y

    -- After the first replacement, whose result is known, and after the second.
    second-Leaves :
        (half : Bytes) (o : Option Bytes)
        → replace_text max_bridged_frame_len joystick_x_key (s.fixed 8 x) (contents t) ≡ some half
        → replace_text max_bridged_frame_len joystick_y_key (s.fixed 8 y) half ≡ o
        → length half ≤ max_bridged_frame_len
        → Within max_bridged_frame_len o
        → reformat t.buf t.n max_bridged_frame_len ≡ some (write_back (overwrite half t.buf) o)
    unfolding bridge_reformat_joystick
    second-Leaves half o e e' h w =
        let b = overwrite half t.buf in
        let first =
          replace_value_for_key-eq t.buf t.n max_bridged_frame_len joystick_x_key x (omega arith)
            i.within (omega (arith, i.storage)) (omega arith)
          ∙ ap (λ o. some (write_back t.buf o)) e in
        let second =
          replace_value_for_key-eq b (length half) max_bridged_frame_len joystick_y_key y
            (omega arith) h
            (omega (arith, i.storage, length-overwrite half t.buf (omega (arith, i.storage))))
            (omega arith)
          ∙ ap
              (λ text. some (
                write_back b
                  (replace_text max_bridged_frame_len joystick_y_key (s.fixed 8 y) text)))
              (take-overwrite half t.buf)
          ∙ ap (λ o. some (write_back b o)) e' in
        >>=-some _ first (rw (not_negative (length half)) second)

    reformat-Leaves :
        (o : Option Bytes)
        → replace_text max_bridged_frame_len joystick_x_key (s.fixed 8 x) (contents t) ≡ o
        → Within max_bridged_frame_len o
        → Leaves (put_y max_bridged_frame_len (s.fixed 8 y) (contents t) o) (try_edit reformat t)
    unfolding put_y bridge_reformat_joystick try_edit
    reformat-Leaves none e w =
        try_edit-Leaves reformat t none i
          (>>=-some _
            (replace_value_for_key-eq t.buf t.n max_bridged_frame_len joystick_x_key x (omega arith)
                i.within (omega (arith, i.storage)) (omega arith)
              ∙ ap (λ o. some (write_back t.buf o)) e)
            refl)
          tt
    reformat-Leaves (some half) e w =
        let y_digits = s.fixed 8 y in
        let bounded = replace_text-Within max_bridged_frame_len joystick_y_key y_digits half w in
        let storage : length (overwrite half t.buf) ≡ max_bridged_frame_len =
          length-overwrite half t.buf (omega (arith, i.storage)) ∙ i.storage in
        elim (Option-cases (replace_text max_bridged_frame_len joystick_y_key y_digits half)) [
          | inl none_left ↦
              let e' = second-Leaves half none e none_left w tt in
              rw (none_left, put_y)
                (
                  record { buf = overwrite half t.buf; n = t.n },
                  >>=-some _ e' refl,
                  record { storage = storage; within = i.within },
                  take-overwrite_prefix t.n half t.buf (omega (arith, i.storage, i.within)),
                )
          | inr (whole, done) ↦
              let short : length whole ≤ max_bridged_frame_len = rw done at bounded in
              let e' = second-Leaves half (some whole) e done w short in
              rw (done, put_y)
                (
                  record { buf = overwrite whole (overwrite half t.buf); n = length whole },
                  >>=-some _ e' (rw (not_negative (length whole)) refl),
                  record {
                    storage =
                        length-overwrite whole (overwrite half t.buf) (omega (arith, storage))
                        ∙ storage;
                    within = short;
                  },
                  take-overwrite whole (overwrite half t.buf),
                )
        ]

  pub splice_joystick-Leaves :
      (joystick : Option (W × W)) (motor_out : Option (MotorOut W)) (t : Text)
      → IsText t
      → Leaves
          (joystick_text joystick motor_out (contents t))
          (splice_joystick joystick motor_out t)
  unfolding splice_joystick reformat_text
  splice_joystick-Leaves none motor_out t i = (t, refl, i, refl)
  splice_joystick-Leaves (some (x, y)) motor_out t i =
      let (t', done, i', text_is) =
        reformat-Leaves x y t i
          (replace_text max_bridged_frame_len joystick_x_key (s.fixed 8 x) (contents t)) refl
          (replace_text-Within max_bridged_frame_len joystick_x_key (s.fixed 8 x) (contents t)
            (omega (arith, i.within, length-take t.n t.buf))) in
      let (t'', done', i'', text_is') = splice_motor-Leaves motor_out t' i' in
      (t'', >>=-some _ done done', i'', text_is' ∙ ap (motor_text motor_out) text_is)
