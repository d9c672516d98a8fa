-- ===== src/Frame/Edit/Insert.antt =====
-- `insert_before_closing_brace` and the two functions that append fields.
use imx8mp_pipe_line_setup.Prelude.{
  ℕ, zero, suc, ◌+◌, ◌-◌, ◌^◌, ◌≤◌, ◌<◌, ◌≡◌, refl, sym, ap, ◌∙◌, false, ◌⊎◌, inl, inr, some, [],
  ◌∷◌, ◌++◌, arith, ltb, leb, ◌==◌, ==_iff, ltb→lt, ltb→le, leb→le, leb→lt, >>=-then, Bool-cases,
  length, take, drop, get_or, Bytes, length-take, length-drop, take-append-drop, take-take,
  drop-append, drop-append_le,
}
use imx8mp_pipe_line_setup.Prelude.Int.{minus_one, to_int, to_int_small}
use imx8mp_pipe_line_setup.Memory.{memcpy, memmove, snprintf, snprintf_stored}
use imx8mp_pipe_line_setup.Memory.Splice.{spliced, splice_lem, length-spliced}
use imx8mp_pipe_line_setup.Double.{Stdio}
use imx8mp_pipe_line_setup.Frame.Edit.{
  Edited, close_pos, insert_at, insert_behind, insert_printed, insert_before_closing_brace,
  bridge_append_motor_fields, bridge_append_field, motor_fields, named_field,
}
use imx8mp_pipe_line_setup.Frame.Edit.Outcome.{Outcome, failed, edited, NoBrace, IsInsertion}

-- What the loop over `text` finds: no brace at all, or the last one just before the position.
abbrev pub LastBrace : Bytes → ℕ → Type 0
LastBrace text zero = NoBrace text
LastBrace text (suc at) = (after : Bytes) × (drop at text ≡ b'}' ∷ after) × NoBrace after

All-concat : (xs : Bytes) (c : ℕ) → NoBrace xs → (c == b'}') ≡ false → NoBrace (xs ++ (c ∷ []))
All-concat [] c n h = (h, tt)
All-concat (x ∷ xs) c n h = (n.0, All-concat xs c n.1 h)

take-suc :
    (buf : Bytes) (p : ℕ) → p < length buf → take (suc p) buf ≡ take p buf ++ (get_or buf p 0 ∷ [])
take-suc [] p h = absurd (omega arith)
take-suc (c ∷ cs) zero h = refl
take-suc (c ∷ cs) (suc p) h = ap (◌∷◌ c) (take-suc cs p (omega arith))

-- One byte more that is no brace.
LastBrace-concat :
    (text : Bytes) (c found : ℕ)
    → (c == b'}') ≡ false
    → LastBrace text found
    → LastBrace (text ++ (c ∷ [])) found
LastBrace-concat text c zero h last = All-concat text c last h
LastBrace-concat text c (suc at) h (after, e, none_after) = (
  after ++ (c ∷ []),
  drop-append_le at text (c ∷ []) (omega (arith, ap length e, length-drop at text))
      ∙ ap (λ t. t ++ (c ∷ [])) e,
  All-concat after c none_after h,
)

pub close_pos-LastBrace :
    (buf : Bytes) (len : ℕ) → len ≤ length buf → LastBrace (take len buf) (close_pos buf len)
unfolding close_pos
close_pos-LastBrace buf zero h = tt
close_pos-LastBrace buf (suc p) h =
    let last_byte = take-suc buf p (omega arith) in
    elim (Bool-cases (get_or buf p 0 == b'}')) [
      | inl here ↦
          rw (here, last_byte)
            (
              [],
              drop-append p (take p buf) (get_or buf p 0 ∷ []) (omega (arith, length-take p buf))
                  ∙ ap (λ c. c ∷ []) ((==_iff (get_or buf p 0) b'}').0 here),
              tt,
            )
      | inr before ↦
          rw (before, last_byte)
            (LastBrace-concat (take p buf) (get_or buf p 0) _ before
              (close_pos-LastBrace buf p (omega arith)))
    ]

-- When no field is inserted: there is no brace, or the text would exceed `cap`.
abbrev pub InsertFails : Bytes → ℕ → Bytes → Type 0
InsertFails fields cap text = NoBrace text ⊎ (cap < length text + length fields)

module _ (buf : Bytes) (len cap : ℕ) (src fields : Bytes) (fits : len ≤ cap)
    (room : cap ≤ length buf) (small : cap < 2 ^ 31) (source : length fields ≤ length src)
    (stored : take (length fields) src ≡ fields) where
  insert_at-Outcome :
      (at : ℕ)
      → LastBrace (take len buf) (suc at)
      → (r : Edited) × (insert_at buf len cap src (length fields) at ≡ some r)
        × Outcome
            (InsertFails fields cap (take len buf))
            (IsInsertion fields (take len buf))
            buf
            cap
            r
  unfolding insert_at
  insert_at-Outcome at (after, e, last) =
      let text = take len buf in
      let whole : length text ≡ len = omega (arith, length-take len buf) in
      let inside : at < len = omega (arith, ap length e, length-drop at text) in
      let text_is : text ≡ take at text ++ (b'}' ∷ after) =
        sym (take-append-drop at text) ∙ ap (◌++◌ (take at text)) e in
      let total = at + length fields + (len - at) in
      elim (Bool-cases (ltb cap total)) [
        | inl over ↦ (
          record { ret = minus_one; buf = buf },
          rw over,
          failed (inr (omega (arith, ltb→lt cap total over))) refl refl,
        )
        | inr under ↦
            let (out, done, holds) =
              splice_lem buf src at at (length fields) len (omega arith) (omega arith) (omega arith)
                source (omega (arith, ltb→le cap total under)) in
            let result = spliced buf len src (length fields) at at in
            let size =
              length-spliced buf src at at (length fields) len (omega arith) (omega arith)
                (omega arith) source (omega (arith, ltb→le cap total under)) in
            (
              record { ret = to_int total; buf = out },
              rw under (
                  >>=-then (memmove buf (at + length fields) at (len - at))
                    (λ b. memcpy b at src (length fields)) _ done),
              edited result
                  (record {
                    before = take at text;
                    after = after;
                    text_is = text_is;
                    last = last;
                    result_is = rw (stored, e, take-take at len buf (omega arith));
                  })
                  (omega (arith, ltb→le cap total under))
                  (rw size (to_int_small total (omega (arith, ltb→le cap total under)))) holds,
            )
      ]

  insert_behind-Outcome :
      (found : ℕ)
      → LastBrace (take len buf) found
      → (r : Edited) × (insert_behind found buf len cap src (length fields) ≡ some r)
        × Outcome
            (InsertFails fields cap (take len buf))
            (IsInsertion fields (take len buf))
            buf
            cap
            r
  unfolding insert_behind
  insert_behind-Outcome zero none_there =
      (record { ret = minus_one; buf = buf }, refl, failed (inl none_there) refl refl)
  insert_behind-Outcome (suc at) last = insert_at-Outcome at last

  -- Inserting never faults: it returns -1 with the buffer as it was, only where `InsertFails` holds, or the
  -- length of the text with the fields before its last brace.
  pub insert_before_closing_brace-Outcome :
      (r : Edited) × (insert_before_closing_brace buf len cap src (length fields) ≡ some r)
      × Outcome
          (InsertFails fields cap (take len buf))
          (IsInsertion fields (take len buf))
          buf
          cap
          r
  unfolding insert_before_closing_brace
  insert_before_closing_brace-Outcome =
      insert_behind-Outcome (close_pos buf len) (close_pos-LastBrace buf len (omega arith))

-- When no field is appended: the rendering does not fit its array, or it is not inserted.
abbrev pub AppendFails : ℕ → Bytes → ℕ → Bytes → Type 0
AppendFails size fields cap text = (size ≤ length fields) ⊎ InsertFails fields cap text

widen :
    {F G : Type 0} {P : Bytes → Type 0} {buf : Bytes} {cap : ℕ} {r : Edited}
    → (F → G)
    → Outcome F P buf cap r
    → Outcome G P buf cap r
widen g (failed f e k) = failed (g f) e k
widen g (edited t p l e h) = edited t p l e h

module _ (buf : Bytes) (len cap : ℕ) (fits : len ≤ cap) (room : cap ≤ length buf)
    (small : cap < 2 ^ 31) where
  insert_printed-Outcome :
      (size : ℕ) (fields : Bytes)
      → (r : Edited) × (insert_printed buf len cap size (snprintf size fields) ≡ some r)
        × Outcome
            (AppendFails size fields cap (take len buf))
            (IsInsertion fields (take len buf))
            buf
            cap
            r
  unfolding insert_printed snprintf
  insert_printed-Outcome size fields = elim (Bool-cases (leb size (length fields))) [
    | inl long ↦ (
      record { ret = minus_one; buf = buf },
      rw long,
      failed (inl (leb→le size (length fields) long)) refl refl,
    )
    | inr short ↦
        let stored = snprintf_stored size fields (leb→lt size (length fields) short) in
        let (r, done, outcome) =
          insert_before_closing_brace-Outcome buf len cap (snprintf size fields).stored fields fits
            room small stored.1 stored.0 in
        (r, rw short done, widen inr outcome)
  ]

  module _ {W : Type 0} ⦃s : Stdio W⦄ where
    -- bridge_append_field, on a text within cap, cap within the buffer and less than 2 ^ 31, does not
    -- fault. It fails only if the field has 128 bytes or more, there is no closing brace, or the new text
    -- would exceed cap, and the buffer is then as it was; else the field stands before the last closing
    -- brace.
    pub bridge_append_field-Outcome :
        (key : Bytes) (value : W)
        → (r : Edited) × (bridge_append_field buf len cap key value ≡ some r)
          × Outcome
              (AppendFails 128 (named_field key value) cap (take len buf))
              (IsInsertion (named_field key value) (take len buf))
              buf
              cap
              r
    unfolding bridge_append_field
    bridge_append_field-Outcome key value = insert_printed-Outcome 128 (named_field key value)

    -- bridge_append_motor_fields, on a text within cap, cap within the buffer and less than 2 ^ 31, does
    -- not fault. It fails only if the four fields have 192 bytes or more, there is no closing brace, or
    -- the new text would exceed cap, and the buffer is then as it was; else the fields stand before the
    -- last closing brace.
    pub bridge_append_motor_fields-Outcome :
        (m1 m2 m3 m4 : W)
        → (r : Edited) × (bridge_append_motor_fields buf len cap m1 m2 m3 m4 ≡ some r)
          × Outcome
              (AppendFails 192 (motor_fields m1 m2 m3 m4) cap (take len buf))
              (IsInsertion (motor_fields m1 m2 m3 m4) (take len buf))
              buf
              cap
              r
    unfolding bridge_append_motor_fields
    bridge_append_motor_fields-Outcome m1 m2 m3 m4 =
        insert_printed-Outcome 192 (motor_fields m1 m2 m3 m4)
