-- ===== src/Frame/Edit/Replace.antt =====
-- `replace_value_for_key` against the replacement in the text.
use imx8mp_pipe_line_setup.Prelude.{
  ℕ, ◌+◌, ◌-◌, ◌^◌, ◌≤◌, ◌<◌, ◌≡◌, refl, ◌⊎◌, inl, inr, some, ◌++◌, arith, ltb, leb, ltb→lt, ltb→le,
  leb→le, leb→lt, lt→leb, le→ltb, >>=-then, Bool-cases, Option-cases, length, take, drop, Bytes,
  append_assoc, length-append, length-take, length-drop, take-take,
}
use imx8mp_pipe_line_setup.Prelude.Int.{pos, minus_one, to_int, to_int_small}
use imx8mp_pipe_line_setup.Memory.{memcpy, memmove, snprintf, snprintf_stored}
use imx8mp_pipe_line_setup.Memory.Splice.{Holds, spliced, splice_lem}
use imx8mp_pipe_line_setup.Double.{Stdio}
use imx8mp_pipe_line_setup.Frame.Search.{find_substr, find_substr-IsFirst}
use imx8mp_pipe_line_setup.Frame.Span.{Span}
use imx8mp_pipe_line_setup.Frame.Keyed.{find_value_span-Cuts}
use imx8mp_pipe_line_setup.Frame.Edit.{Edited, replace_at, replace_value_for_key}
use imx8mp_pipe_line_setup.Frame.Edit.Outcome.{Outcome, failed, edited, IsReplacement, IsReplaced}

-- When a value is not written: its rendering does not fit 32 bytes, or the text would exceed `cap`.
abbrev pub ReplaceFails : Bytes → ℕ → Bytes → Bytes → Type 0
ReplaceFails key cap digits text =
    (32 ≤ length digits)
    ⊎ ((result : Bytes) × IsReplacement key digits text result × (cap < length result))

module _ (buf : Bytes) (len cap : ℕ) (key digits : Bytes) (span : Span) (fits : len ≤ cap)
    (room : cap ≤ length buf) (small : cap < 2 ^ 31) (ordered : span.value_start ≤ span.value_end)
    (inside : span.value_end ≤ len) where
  abbrev pub new_text : Bytes
  new_text = take span.value_start (take len buf) ++ (digits ++ drop span.value_end (take len buf))

  pub length-new_text : length new_text ≡ span.value_start + length digits + (len - span.value_end)
  length-new_text = omega (
    arith,
    length-append (take span.value_start (take len buf))
        (digits ++ drop span.value_end (take len buf)),
    length-append digits (drop span.value_end (take len buf)),
    length-take span.value_start (take len buf),
    length-drop span.value_end (take len buf),
    length-take len buf,
  )

  -- The moves, where the rendering fits its array and the new text its bound.
  replace_at_moves :
      length digits < 32
      → span.value_start + length digits + (len - span.value_end) ≤ cap
      → (r : Edited) × (replace_at buf len cap span (snprintf 32 digits) ≡ some r)
        × (r.ret ≡ pos (length new_text))
        × Holds r.buf new_text (length buf)
  unfolding replace_at snprintf
  replace_at_moves short total =
      let stored = snprintf_stored 32 digits short in
      let src = (snprintf 32 digits).stored in
      let start = span.value_start in
      let (out, done, holds) =
        splice_lem buf src start span.value_end (length digits) len ordered inside (omega arith)
          stored.1 (omega arith) in
      let text_is : spliced buf len src (length digits) start span.value_end ≡ new_text =
        rw (stored.0, take-take start len buf (omega arith)) in
      (
        record { ret = to_int (start + length digits + (len - span.value_end)); buf = out },
        rw (lt→leb 32 (length digits) short, le→ltb cap _ total)
            (>>=-then (memmove buf (start + length digits) span.value_end (len - span.value_end))
              (λ b. memcpy b start src (length digits)) _ done),
        rw length-new_text (to_int_small _ (omega arith)),
        rw text_is at holds,
      )

  replace_at-Outcome :
      IsReplacement key digits (take len buf) new_text
      → (r : Edited) × (replace_at buf len cap span (snprintf 32 digits) ≡ some r)
        × Outcome
            (ReplaceFails key cap digits (take len buf))
            (IsReplaced key digits (take len buf))
            buf
            cap
            r
  unfolding replace_at snprintf
  replace_at-Outcome replacement = elim (Bool-cases (leb 32 (length digits))) [
    | inl long ↦ (
      record { ret = minus_one; buf = buf },
      rw long,
      failed (inl (leb→le 32 (length digits) long)) refl refl,
    )
    | inr short ↦
        elim (Bool-cases (ltb cap (span.value_start + length digits + (len - span.value_end)))) [
          | inl over ↦ (
            record { ret = minus_one; buf = buf },
            rw (short, over),
            failed (inr (new_text, replacement, rw length-new_text (ltb→lt cap _ over))) refl refl,
          )
          | inr under ↦
              let total = ltb→le cap _ under in
              let (r, done, ret_is, holds) =
                replace_at_moves (leb→lt 32 (length digits) short) total in
              (r, done, edited new_text (inr replacement) (rw length-new_text total) ret_is holds)
        ]
  ]

module _ {W : Type 0} ⦃s : Stdio W⦄ where
  -- replace_value_for_key, with a key that is not empty, on a text within cap, cap within the buffer and
  -- less than 2 ^ 31, does not fault. It returns -1 with the buffer as it was, only where the new value
  -- takes 32 bytes or more or the text would exceed cap; or the text with the value behind the first
  -- occurrence of the key replaced, or unchanged without the key.
  pub replace_value_for_key-Outcome :
      (buf : Bytes) (len cap : ℕ) (key : Bytes) (value : W)
      → 0 < length key
      → len ≤ cap
      → cap ≤ length buf
      → cap < 2 ^ 31
      → (r : Edited) × (replace_value_for_key buf len cap key value ≡ some r)
        × Outcome
            (ReplaceFails key cap (s.fixed 8 value) (take len buf))
            (IsReplaced key (s.fixed 8 value) (take len buf))
            buf
            cap
            r
  unfolding replace_value_for_key
  replace_value_for_key-Outcome buf len cap key value ne h k small =
      let text = take len buf in
      let whole : length text ≡ len = omega (arith, length-take len buf) in
      elim (Option-cases (find_substr text key)) [
        | inl absent ↦ (
          record { ret = to_int len; buf = buf },
          rw (absent, replace_value_for_key),
          edited text (inl (refl, rw absent at (find_substr-IsFirst text key ne))) (rw whole h)
              (rw whole (to_int_small len (omega arith)))
              (record { text_is = rw whole; size_is = refl }),
        )
        | inr (at, found) ↦
            let cuts = find_value_span-Cuts key text at ne found in
            rw (found, replace_value_for_key)
              (replace_at-Outcome buf len cap key (s.fixed 8 value) _ h k small cuts.ordered
                (omega (arith, cuts.inside))
                (record {
                  parts = cuts.parts;
                  result_is = rw (cuts.start_is, cuts.end_is) (simp append_assoc);
                }))
      ]
