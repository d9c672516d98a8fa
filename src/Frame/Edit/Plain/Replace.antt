-- ===== src/Frame/Edit/Plain/Replace.antt =====
-- `replace_value_for_key` against the replacement of a value in a text.
use imx8mp_pipe_line_setup.Prelude.{
  ℕ, ◌+◌, ◌-◌, ◌^◌, ◌≤◌, ◌<◌, ◌≡◌, refl, sym, ap, ◌∙◌, inl, inr, some, ◌++◌, arith, ltb, leb,
  ltb→le, leb→lt, >>=-then, Bool-cases, Option-cases, length, take, drop, Bytes, length-take,
  take-take, take-append-drop,
}
use imx8mp_pipe_line_setup.Prelude.Int.{pos, to_int_small}
use imx8mp_pipe_line_setup.Memory.{memcpy, memmove, snprintf, snprintf_stored}
use imx8mp_pipe_line_setup.Memory.Splice.{spliced, splice-eq}
use imx8mp_pipe_line_setup.Double.{Stdio}
use imx8mp_pipe_line_setup.Frame.Search.{find_substr}
use imx8mp_pipe_line_setup.Frame.Span.{Span}
use imx8mp_pipe_line_setup.Frame.Keyed.{find_value_span-Cuts}
use imx8mp_pipe_line_setup.Frame.Edit.{replace_at, replace_value_for_key}
use imx8mp_pipe_line_setup.Frame.Edit.Replace.{new_text, length-new_text}
use imx8mp_pipe_line_setup.Frame.Edit.Plain.{overwrite, write_back, put_at, replace_text}

-- Putting a text's own first bytes back changes nothing.
pub overwrite-take : (n : ℕ) (buf : Bytes) → n ≤ length buf → overwrite (take n buf) buf ≡ buf
overwrite-take n buf h =
    ap (λ k. take n buf ++ drop k buf) (omega (arith, length-take n buf)) ∙ take-append-drop n buf

module _ (buf : Bytes) (len cap : ℕ) (key digits : Bytes) (span : Span) (fits : len ≤ cap)
    (room : cap ≤ length buf) (small : cap < 2 ^ 31) (ordered : span.value_start ≤ span.value_end)
    (inside : span.value_end ≤ len) where
  replace_at-eq :
      replace_at buf len cap span (snprintf 32 digits)
      ≡ some (write_back buf (put_at cap digits (take len buf) span))
  unfolding replace_at snprintf put_at
  replace_at-eq =
      let start = span.value_start in
      let total = start + length digits + (len - span.value_end) in
      let size : length (new_text buf len cap key digits span fits room small ordered inside)
          ≡ total =
        length-new_text buf len cap key digits span fits room small ordered inside in
      elim (Bool-cases (leb 32 (length digits))) [
        | inl long ↦ rw long refl
        | inr short ↦ elim (Bool-cases (ltb cap total)) [
          | inl over ↦ rw (short, size, over) refl
          | inr under ↦
              let fits_cap = ltb→le cap total under in
              let stored = snprintf_stored 32 digits (leb→lt 32 (length digits) short) in
              let src = (snprintf 32 digits).stored in
              let moves =
                splice-eq buf src start span.value_end (length digits) len ordered inside
                  (omega arith) stored.1 (omega arith) in
              let text_is : spliced buf len src (length digits) start span.value_end
                  ≡ new_text buf len cap key digits span fits room small ordered inside =
                rw (stored.0, take-take start len buf (omega arith)) in
              let ret_is = to_int_small total (omega arith) ∙ ap pos (sym size) in
              rw (short, size, under)
                (>>=-then
                    (memmove buf (start + length digits) span.value_end (len - span.value_end))
                    (λ b. memcpy b start src (length digits)) _ moves
                  ∙ λ i. some (record { ret = ret_is i; buf = text_is i ++ drop (sym size i) buf }))
        ]
      ]

module _ {W : Type 0} ⦃s : Stdio W⦄ where
  pub replace_value_for_key-eq :
      (buf : Bytes) (len cap : ℕ) (key : Bytes) (value : W)
      → 0 < length key
      → len ≤ cap
      → cap ≤ length buf
      → cap < 2 ^ 31
      → replace_value_for_key buf len cap key value
        ≡ some (write_back buf (replace_text cap key (s.fixed 8 value) (take len buf)))
  unfolding replace_value_for_key replace_text
  replace_value_for_key-eq buf len cap key value ne fits room small =
      let text = take len buf in
      let whole : length text ≡ len = omega (arith, length-take len buf) in
      elim (Option-cases (find_substr text key)) [
        | inl absent ↦
            rw (absent, replace_value_for_key, replace_text)
              (λ i. some (record {
                ret = (to_int_small len (omega arith) ∙ ap pos (sym whole)) i;
                buf = sym (overwrite-take len buf (omega arith)) i;
              }))
        | inr (at, found) ↦
            let cuts = find_value_span-Cuts key text at ne found in
            rw (found, replace_value_for_key, replace_text)
              (replace_at-eq buf len cap key (s.fixed 8 value) _ fits room small cuts.ordered
                (omega (arith, cuts.inside)))
      ]
