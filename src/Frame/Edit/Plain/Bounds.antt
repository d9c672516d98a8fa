-- ===== src/Frame/Edit/Plain/Bounds.antt =====
-- The texts that the edits make, within the bound, and a text put in front of another.
use imx8mp_pipe_line_setup.Prelude.{
  ℕ, zero, suc, ◌≤◌, ◌≡◌, refl, sym, ap, inl, inr, Option, none, some, [], ◌∷◌, arith, ltb, leb,
  ltb→le, Option-cases, if_elim, length, take, drop, Bytes, length-append, length-drop, take-append,
  take_all,
}
use imx8mp_pipe_line_setup.Frame.Search.{find_substr}
use imx8mp_pipe_line_setup.Frame.Edit.Plain.{
  overwrite, within, put_at, replace_text, last_brace, insert_after, insert_text,
}

abbrev pub Within : ℕ → Option Bytes → Type 0
Within cap none = Unit
Within cap (some text) = length text ≤ cap

pub within-Within : (cap : ℕ) (text : Bytes) → Within cap (within cap text)
within-Within cap text =
    if_elim (Within cap) (ltb cap (length text)) (λ over. tt)
      λ under. ltb→le cap (length text) under

pub replace_text-Within :
    (cap : ℕ) (key digits text : Bytes)
    → length text ≤ cap
    → Within cap (replace_text cap key digits text)
unfolding replace_text put_at
replace_text-Within cap key digits text h = elim (Option-cases (find_substr text key)) [
  | inl absent ↦ rw (absent, replace_text) h
  | inr (at, found) ↦
      rw (found, replace_text)
        (if_elim (Within cap) (leb 32 (length digits)) (λ long. tt) λ short. within-Within cap _)
]

pub insert_text-Within :
    (cap size : ℕ) (fields text : Bytes) → Within cap (insert_text cap size fields text)
unfolding insert_text
insert_text-Within cap size fields text =
    if_elim (Within cap) (leb size (length fields)) (λ long. tt) λ short. after (last_brace text)
  where
    after : (o : Option ℕ) → Within cap (insert_after cap fields text o)
    after none = tt
    after (some at) = within-Within cap _

-- The new text is what the storage begins with, and the storage keeps its size.
pub take-overwrite : (text buf : Bytes) → take (length text) (overwrite text buf) ≡ text
take-overwrite text buf = take-append (length text) text _ refl

pub length-overwrite :
    (text buf : Bytes) → length text ≤ length buf → length (overwrite text buf) ≡ length buf
length-overwrite text buf h =
    omega (arith, length-append text (drop (length text) buf), length-drop (length text) buf)

-- What a prefix shows of a text put in front depends on the prefix alone.
pub take-overwrite_prefix :
    (n : ℕ) (half buf : Bytes)
    → n ≤ length buf
    → take n (overwrite half buf) ≡ take (length (take n buf)) (overwrite half (take n buf))
take-overwrite_prefix n [] buf h = sym (take_all (length (take n buf)) (take n buf) (omega arith))
take-overwrite_prefix zero (c ∷ half) buf h = refl
take-overwrite_prefix (suc n) (c ∷ half) [] h = absurd (omega arith)
take-overwrite_prefix (suc n) (c ∷ half) (b ∷ bs) h =
    ap (◌∷◌ c) (take-overwrite_prefix n half bs (omega arith))
