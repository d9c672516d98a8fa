-- ===== src/Memory/Splice.antt =====
-- Making room inside an array and filling it: the two moves at the end of `replace_value_for_key` and
-- of `insert_before_closing_brace` in src/frame_bridge.cpp.
use imx8mp_pipe_line_setup.Prelude.{
  ℕ, ◌+◌, ◌-◌, ◌≤◌, ◌≡◌, refl, sym, ap, ◌∙◌, some, ◌++◌, arith, length, take, drop, Bytes, ◌>>=◌,
  append_assoc, length-append, length-take, length-drop, take-append, take-append_le, drop-append,
  take-take, take-drop,
}
use imx8mp_pipe_line_setup.Memory.{memcpy, memmove, memcpy_fits, memmove_fits, length_written}

-- Storage of a given size whose first bytes are `text`.
pub record Holds (buf : Bytes) (text : Bytes) (size : ℕ) : Type 0 where
  pub text_is : take (length text) buf ≡ text
  pub size_is : length buf ≡ size

-- The storage after the bytes from `from` on have moved to `to`.
abbrev moved : Bytes → ℕ → ℕ → ℕ → Bytes
moved buf to from n = take to buf ++ (take n (drop from buf) ++ drop (to + n) buf)

-- The first `len` bytes with those from `start` to `end` replaced by `n` bytes of `src`.
abbrev pub spliced : Bytes → ℕ → Bytes → ℕ → ℕ → ℕ → Bytes
spliced buf len src n start end = take start buf ++ (take n src ++ drop end (take len buf))

module _ (buf src : Bytes) (start end n len : ℕ) (ordered : start ≤ end) (inside : end ≤ len)
    (whole : len ≤ length buf) (source : n ≤ length src)
    (room : start + n + (len - end) ≤ length buf) where
  length-moved : length (moved buf (start + n) end (len - end)) ≡ length buf
  length-moved =
      length_written buf (start + n) (drop end buf) (len - end) (omega (arith, length-drop end buf))
        room

  drop-moved :
      drop (start + n) (moved buf (start + n) end (len - end))
      ≡ drop end (take len buf) ++ drop (start + n + (len - end)) buf
  drop-moved =
      drop-append (start + n) (take (start + n) buf) _ (omega (arith, length-take (start + n) buf))
      ∙ ap (λ t. t ++ drop (start + n + (len - end)) buf)
          (take-drop (len - end) end len buf (omega arith))

  take-moved : take start (moved buf (start + n) end (len - end)) ≡ take start buf
  take-moved =
      take-append_le start (take (start + n) buf) _ (omega (arith, length-take (start + n) buf))
      ∙ take-take start (start + n) buf (omega arith)

  pub length-spliced : length (spliced buf len src n start end) ≡ start + n + (len - end)
  length-spliced = omega (
    arith,
    length-append (take start buf) (take n src ++ drop end (take len buf)),
    length-append (take n src) (drop end (take len buf)),
    length-take start buf,
    length-take n src,
    length-drop end (take len buf),
    length-take len buf,
  )

  written-eq :
      take start (moved buf (start + n) end (len - end))
        ++ (take n src ++ drop (start + n) (moved buf (start + n) end (len - end)))
      ≡ spliced buf len src n start end ++ drop (start + n + (len - end)) buf
  written-eq =
      rw (take-moved, drop-moved)
        (sym (
          append_assoc (take start buf) (take n src ++ drop end (take len buf)) _
          ∙ ap (◌++◌ (take start buf)) (append_assoc (take n src) (drop end (take len buf)) _)))

  -- Neither move faults, and the new text then stands in front of what the array held behind it.
  pub splice-eq :
      (memmove buf (start + n) end (len - end) >>= λ b. memcpy b start src n)
      ≡ some (spliced buf len src n start end ++ drop (start + n + (len - end)) buf)
  splice-eq =
      rw (memmove_fits buf (start + n) end (len - end) (omega arith) room)
        (memcpy_fits _ start src n source (omega (arith, length-moved)) ∙ ap some written-eq)

  -- So the array holds the text with the new bytes in place.
  pub splice_lem :
      (out : Bytes) × ((memmove buf (start + n) end (len - end) >>= λ b. memcpy b start src n)
        ≡ some out)
      × Holds out (spliced buf len src n start end) (length buf)
  splice_lem = (
    spliced buf len src n start end ++ drop (start + n + (len - end)) buf,
    splice-eq,
    record {
      text_is = take-append _ (spliced buf len src n start end) _ refl;
      size_is = omega (
        arith,
        length-append (spliced buf len src n start end) (drop (start + n + (len - end)) buf),
        length-spliced,
        length-drop (start + n + (len - end)) buf,
      );
    },
  )
