-- ===== src/Frame/Edit/Outcome.antt =====
-- What a caller sees of an edit in place.
use imx8mp_pipe_line_setup.Prelude.{ℕ, ◌≤◌, ◌≡◌, ◌++◌, ◌⊎◌, length, Bytes, All, false, ◌==◌, ◌∷◌}
use imx8mp_pipe_line_setup.Prelude.Int.{pos, minus_one}
use imx8mp_pipe_line_setup.Memory.Splice.{Holds}
use imx8mp_pipe_line_setup.Frame.Search.{OccursAt}
use imx8mp_pipe_line_setup.Frame.Keyed.{IsKeyed}
use imx8mp_pipe_line_setup.Frame.Edit.{Edited}

-- A failed edit returns -1 and leaves the buffer alone; any other returns the length of the new text,
-- which the buffer then begins with.
pub data Outcome (Fails : Type 0) (Result : Bytes → Type 0) (buf : Bytes) (cap : ℕ) (r : Edited)
    : Type 0 where
  failed : Fails → r.ret ≡ minus_one → r.buf ≡ buf → Outcome Fails Result buf cap r
  edited :
      (text : Bytes)
      → Result text
      → length text ≤ cap
      → r.ret ≡ pos (length text)
      → Holds r.buf text (length buf)
      → Outcome Fails Result buf cap r

-- The value behind the first occurrence of `key` in `text` gives way to `digits`.
pub record IsReplacement (key digits text result : Bytes) : Type 0 where
  pub parts : IsKeyed key text
  pub result_is : result ≡ parts.before ++ (key ++ (parts.blanks ++ (digits ++ parts.after)))

abbrev pub IsReplaced : Bytes → Bytes → Bytes → Bytes → Type 0
IsReplaced key digits text result =
    ((result ≡ text) × ((i : ℕ) → ¬ OccursAt key text i)) ⊎ IsReplacement key digits text result

abbrev pub NoBrace : Bytes → Type 0
NoBrace = All λ c. (c == b'}') ≡ false

-- `fields` stand before the last closing brace of `text`.
pub record IsInsertion (fields text result : Bytes) : Type 0 where
  pub before : Bytes
  pub after : Bytes
  pub text_is : text ≡ before ++ (b'}' ∷ after)
  pub last : NoBrace after
  pub result_is : result ≡ before ++ (fields ++ (b'}' ∷ after))
