-- ===== src/Frame/Edit/Plain/Insert.antt =====
-- `insert_before_closing_brace` and the functions that append fields, against the insertion in a text.
use imx8mp_pipe_line_setup.Prelude.{
  ℕ, zero, suc, ◌+◌, ◌-◌, ◌^◌, ◌≤◌, ◌<◌, ◌≡◌, refl, sym, ap, ◌∙◌, inl, inr, Option, none, some, [],
  ◌∷◌, ◌++◌, arith, ltb, leb, ltb→le, leb→lt, >>=-then, Bool-cases, length, take, drop, get_or,
  Bytes, length-take, length-append, length-drop, take-take,
}
use imx8mp_pipe_line_setup.Prelude.Int.{pos, to_int_small}
use imx8mp_pipe_line_setup.Memory.{memcpy, memmove, snprintf, snprintf_stored}
use imx8mp_pipe_line_setup.Memory.Splice.{spliced, splice-eq}
use imx8mp_pipe_line_setup.Double.{Stdio}
use imx8mp_pipe_line_setup.Frame.Edit.{
  close_pos, insert_behind, insert_printed, insert_before_closing_brace, bridge_append_motor_fields,
  bridge_append_field, motor_fields, named_field,
}
use imx8mp_pipe_line_setup.Frame.Edit.Outcome.{NoBrace}
use imx8mp_pipe_line_setup.Frame.Edit.Insert.{LastBrace, close_pos-LastBrace}
use imx8mp_pipe_line_setup.Frame.Edit.Plain.{write_back, last_brace, insert_after, insert_text}

last_brace-none : (text : Bytes) → NoBrace text → last_brace text ≡ none
unfolding last_brace
last_brace-none [] h = refl
last_brace-none (c ∷ cs) h = let other = h.0 in rw (last_brace-none cs h.1) (rw other)

last_brace-some : (text : Bytes) (at : ℕ) → LastBrace text (suc at) → last_brace text ≡ some at
unfolding last_brace
last_brace-some [] zero (after, e, h) = cc
last_brace-some [] (suc at) (after, e, h) = cc
last_brace-some (c ∷ cs) zero (after, e, h) =
    let head : c ≡ b'}' = ap (λ l. get_or l 0 0) e in
    let no_later : last_brace cs ≡ none =
      ap (λ l. last_brace (drop 1 l)) e ∙ last_brace-none after h in
    rw no_later (ground arith)
last_brace-some (c ∷ cs) (suc at) last = rw (last_brace-some cs at last)

-- Where the walk back from the end stops.
abbrev found_brace : ℕ → Option ℕ
found_brace zero = none
found_brace (suc at) = some at

last_brace_lem :
    (text : Bytes) (found : ℕ) → LastBrace text found → last_brace text ≡ found_brace found
last_brace_lem text zero h = last_brace-none text h
last_brace_lem text (suc at) h = last_brace-some text at h

module _ (buf : Bytes) (len cap : ℕ) (src fields : Bytes) (fits : len ≤ cap)
    (room : cap ≤ length buf) (small : cap < 2 ^ 31) (source : length fields ≤ length src)
    (stored : take (length fields) src ≡ fields) where
  insert_behind-eq :
      (found : ℕ)
      → LastBrace (take len buf) found
      → insert_behind found buf len cap src (length fields)
        ≡ some (write_back buf (insert_after cap fields (take len buf) (found_brace found)))
  unfolding insert_behind insert_after
  insert_behind-eq zero last = refl
  insert_behind-eq (suc at) (after, e, last) =
      let text = take len buf in
      let whole : length text ≡ len = omega (arith, length-take len buf) in
      let inside : at < len = omega (arith, ap length e, length-drop at text) in
      let total = at + length fields + (len - at) in
      let new = take at text ++ (fields ++ drop at text) in
      let size : length new ≡ total = omega (
        arith,
        length-append (take at text) (fields ++ drop at text),
        length-append fields (drop at text),
        length-take at text,
        length-drop at text,
      ) in
      elim (Bool-cases (ltb cap total)) [
        | inl over ↦ rw (size, over) refl
        | inr under ↦
            let fits_cap = ltb→le cap total under in
            let moves =
              splice-eq buf src at at (length fields) len (omega arith) (omega arith) (omega arith)
                source (omega arith) in
            let text_is : spliced buf len src (length fields) at at ≡ new =
              rw (stored, take-take at len buf (omega arith)) in
            let ret_is = to_int_small total (omega arith) ∙ ap pos (sym size) in
            rw (size, under)
              (>>=-then (memmove buf (at + length fields) at (len - at))
                  (λ b. memcpy b at src (length fields)) _ moves
                ∙ λ i. some (record { ret = ret_is i; buf = text_is i ++ drop (sym size i) buf }))
      ]

  insert_before_closing_brace-eq :
      insert_before_closing_brace buf len cap src (length fields)
      ≡ some (write_back buf (insert_after cap fields (take len buf) (last_brace (take len buf))))
  unfolding insert_before_closing_brace
  insert_before_closing_brace-eq =
      let last = close_pos-LastBrace buf len (omega arith) in
      insert_behind-eq (close_pos buf len) last
      ∙ ap (λ o. some (write_back buf (insert_after cap fields (take len buf) o)))
          (sym (last_brace_lem (take len buf) (close_pos buf len) last))

module _ (buf : Bytes) (len cap : ℕ) (fits : len ≤ cap) (room : cap ≤ length buf)
    (small : cap < 2 ^ 31) where
  insert_printed-eq :
      (size : ℕ) (fields : Bytes)
      → insert_printed buf len cap size (snprintf size fields)
        ≡ some (write_back buf (insert_text cap size fields (take len buf)))
  unfolding insert_printed snprintf insert_text
  insert_printed-eq size fields = elim (Bool-cases (leb size (length fields))) [
    | inl long ↦ rw long refl
    | inr short ↦
        let stored = snprintf_stored size fields (leb→lt size (length fields) short) in
        rw short (
          insert_before_closing_brace-eq buf len cap (snprintf size fields).stored fields fits room
            small stored.1 stored.0)
  ]

  module _ {W : Type 0} ⦃s : Stdio W⦄ where
    pub bridge_append_field-eq :
        (key : Bytes) (value : W)
        → bridge_append_field buf len cap key value
          ≡ some (write_back buf (insert_text cap 128 (named_field key value) (take len buf)))
    unfolding bridge_append_field
    bridge_append_field-eq key value = insert_printed-eq 128 (named_field key value)

    pub bridge_append_motor_fields-eq :
        (m1 m2 m3 m4 : W)
        → bridge_append_motor_fields buf len cap m1 m2 m3 m4
          ≡ some (write_back buf (insert_text cap 192 (motor_fields m1 m2 m3 m4) (take len buf)))
    unfolding bridge_append_motor_fields
    bridge_append_motor_fields-eq m1 m2 m3 m4 = insert_printed-eq 192 (motor_fields m1 m2 m3 m4)
