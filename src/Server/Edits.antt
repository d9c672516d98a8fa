-- ===== src/Server/Edits.antt =====
-- The edits of a payload in `bridge_server_forward`, each with the text before and after it.
use mathlib.Core.Path.{subst}
use imx8mp_pipe_line_setup.Prelude.{
  ℕ, ◌≤◌, ◌≡◌, refl, sym, ap, ◌∙◌, inl, inr, Option, none, some, ◌++◌, arith, length, take, drop,
  Bytes, >>=-some, take-append-drop, length-take,
}
use imx8mp_pipe_line_setup.Prelude.Int.{pos, minus_one, not_negative}
use imx8mp_pipe_line_setup.Double.{Stdio}
use imx8mp_pipe_line_setup.Frame.Edit.{
  Edited, bridge_append_field, bridge_append_motor_fields, bridge_reformat_joystick, motor_fields,
  named_field,
}
use imx8mp_pipe_line_setup.Frame.Extract.{joystick_y_key}
use imx8mp_pipe_line_setup.Frame.Edit.Outcome.{Outcome, failed, edited, IsInsertion, IsReplaced}
use imx8mp_pipe_line_setup.Frame.Edit.Insert.{
  AppendFails, bridge_append_field-Outcome, bridge_append_motor_fields-Outcome,
}
use imx8mp_pipe_line_setup.Frame.Edit.Reformat.{
  Reformatted, refused, torn, reformatted, bridge_reformat_joystick-Reformatted,
}
use imx8mp_pipe_line_setup.Motor.{MotorOut}
use imx8mp_pipe_line_setup.Server.{
  Text, max_bridged_frame_len, try_edit, splice_motor, splice_joystick,
}
use imx8mp_pipe_line_setup.Server.Outcome.{
  Appended, Respelled, x_refused, y_refused, both, MotorAppended, JoystickSpliced,
}

-- The storage has its size, and the text lies in it.
pub record IsText (t : Text) : Type 0 where
  pub storage : length t.buf ≡ max_bridged_frame_len
  pub within : t.n ≤ max_bridged_frame_len

abbrev pub contents : Text → Bytes
contents t = take t.n t.buf

-- A step that does not fault, and how it changes the text.
abbrev pub Edits : (Bytes → Bytes → Type 0) → Text → Option Text → Type 0
Edits Step t o = (t' : Text) × (o ≡ some t') × IsText t' × Step (contents t) (contents t')

module _ (edit : Bytes → ℕ → ℕ → Option Edited) (t : Text) (i : IsText t) (r : Edited)
    (done : edit t.buf t.n max_bridged_frame_len ≡ some r) where
  try_edit-failed : r.ret ≡ minus_one → try_edit edit t ≡ some (record { buf = r.buf; n = t.n })
  unfolding try_edit
  try_edit-failed ret_is = >>=-some _ done (rw ret_is)

  try_edit-edited : (n : ℕ) → r.ret ≡ pos n → try_edit edit t ≡ some (record { buf = r.buf; n = n })
  unfolding try_edit
  try_edit-edited n ret_is = >>=-some _ done (rw (ret_is, not_negative n))

  Appended-of_Outcome :
      (size : ℕ) (fields : Bytes)
      → Outcome
          (AppendFails size fields max_bridged_frame_len (contents t))
          (IsInsertion fields (contents t))
          t.buf
          max_bridged_frame_len
          r
      → Edits (Appended size fields) t (try_edit edit t)
  Appended-of_Outcome size fields (failed why ret_is buf_is) = (
    record { buf = r.buf; n = t.n },
    try_edit-failed ret_is,
    record { storage = ap length buf_is ∙ i.storage; within = i.within },
    inl (ap (take t.n) buf_is, why),
  )
  Appended-of_Outcome size fields (edited text insertion short ret_is holds) = (
    record { buf = r.buf; n = length text },
    try_edit-edited (length text) ret_is,
    record { storage = holds.size_is ∙ i.storage; within = short },
    inr (subst (IsInsertion fields (contents t)) (sym holds.text_is) insertion),
  )

  Respelled-of_Reformatted :
      {W : Type 0} ⦃s : Stdio W⦄ (x y : W)
      → Reformatted (s.fixed 8 x) (s.fixed 8 y) max_bridged_frame_len (contents t) t.buf r
      → Edits (Respelled x y) t (try_edit edit t)
  Respelled-of_Reformatted x y (refused why ret_is buf_is) = (
    record { buf = r.buf; n = t.n },
    try_edit-failed ret_is,
    record { storage = ap length buf_is ∙ i.storage; within = i.within },
    x_refused (ap (take t.n) buf_is) why,
  )
  Respelled-of_Reformatted x y (torn half replaced why short ret_is holds) =
      let len_is : t.n ≡ length (contents t) =
        omega (arith, length-take t.n t.buf, i.storage, i.within) in
      let split = take-append-drop (length half) r.buf in
      (
        record { buf = r.buf; n = t.n },
        try_edit-failed ret_is,
        record { storage = holds.size_is ∙ i.storage; within = i.within },
        y_refused half (drop (length half) r.buf) replaced why (λ k.
            take (len_is k)
              ((sym split ∙ ap (λ p. p ++ drop (length half) r.buf) holds.text_is) k)),
      )
  Respelled-of_Reformatted ⦃s = s⦄ x y
        (reformatted half whole replaced replaced' short ret_is holds) =
      (
        record { buf = r.buf; n = length whole },
        try_edit-edited (length whole) ret_is,
        record { storage = holds.size_is ∙ i.storage; within = short },
        both half replaced
            (subst (IsReplaced joystick_y_key (s.fixed 8 y) half) (sym holds.text_is) replaced'),
      )

module _ {W : Type 0} ⦃s : Stdio W⦄ where
  pub append_field-Edits :
      (key : Bytes) (value : W) (t : Text)
      → IsText t
      → Edits
          (Appended 128 (named_field key value))
          t
          (try_edit (λ buf n cap. bridge_append_field buf n cap key value) t)
  append_field-Edits key value t i =
      let (r, done, outcome) =
        bridge_append_field-Outcome t.buf t.n max_bridged_frame_len i.within
          (omega (arith, i.storage)) (omega arith) key value in
      Appended-of_Outcome (λ buf n cap. bridge_append_field buf n cap key value) t i r done 128
        (named_field key value) outcome

  pub splice_motor-Edits :
      (motor_out : Option (MotorOut W)) (t : Text)
      → IsText t
      → Edits (MotorAppended motor_out) t (splice_motor motor_out t)
  unfolding splice_motor
  splice_motor-Edits none t i = (t, refl, i, refl)
  splice_motor-Edits (some m) t i =
      let (r, done, outcome) =
        bridge_append_motor_fields-Outcome t.buf t.n max_bridged_frame_len i.within
          (omega (arith, i.storage)) (omega arith) m.m1 m.m2 m.m3 m.m4 in
      Appended-of_Outcome (λ buf n cap. bridge_append_motor_fields buf n cap m.m1 m.m2 m.m3 m.m4) t
        i r done 192 (motor_fields m.m1 m.m2 m.m3 m.m4) outcome

  pub splice_joystick-Edits :
      (joystick : Option (W × W)) (motor_out : Option (MotorOut W)) (t : Text)
      → IsText t
      → Edits (JoystickSpliced joystick motor_out) t (splice_joystick joystick motor_out t)
  unfolding splice_joystick
  splice_joystick-Edits none motor_out t i = (t, refl, i, refl)
  splice_joystick-Edits (some (x, y)) motor_out t i =
      let (r, done, outcome) =
        bridge_reformat_joystick-Reformatted t.buf t.n max_bridged_frame_len x y i.within
          (omega (arith, i.storage)) (omega arith) in
      let (t', done', i', respelled) =
        Respelled-of_Reformatted (λ buf n cap. bridge_reformat_joystick buf n cap x y) t i r done x
          y outcome in
      let (t'', done'', i'', appended) = splice_motor-Edits motor_out t' i' in
      (t'', >>=-some _ done' done'', i'', (contents t', respelled, appended))
