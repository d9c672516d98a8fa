-- ===== src/Frame/Keyed/Other.antt =====
-- Two keys in one text.
use imx8mp_pipe_line_setup.Prelude.{
  ℕ, ◌+◌, ◌-◌, ◌≤◌, ◌<◌, ◌≡◌, refl, sym, ap, ◌∙◌, ◌⊎◌, Bool, false, inl, inr, [], ◌∷◌, ◌++◌, arith,
  ltb, ltb→lt, ltb→le, Bool-cases, length, drop, get_or, Bytes, length-append, append_assoc,
  drop-append, drop-drop,
}
use imx8mp_pipe_line_setup.Frame.Search.{OccursAt}
use imx8mp_pipe_line_setup.Frame.Span.{is_blank, is_number_char, AllPass, StopsAt}
use imx8mp_pipe_line_setup.Frame.Keyed.{IsKeyed}
use imx8mp_pipe_line_setup.Frame.Keyed.Single.{get_or-append, occurs_byte, AllPass-get_or}

-- Of two splits of a text, the longer front begins with the shorter one.
pub split_between :
    (a b c d : Bytes)
    → a ++ b ≡ c ++ d
    → length a ≤ length c
    → (m : Bytes) × (c ≡ a ++ m) × (b ≡ m ++ d)
split_between [] b c d e h = (c, refl, e)
split_between (x ∷ a) b [] d e h = absurd (omega arith)
split_between (x ∷ a) b (y ∷ c) d e h =
    let (m, front, back) = split_between a b c d (ap (drop 1) e) (omega arith) in
    let head : x ≡ y = ap (λ l. get_or l 0 0) e in (m, λ i. sym head i ∷ front i, back)

pub OccursAt-behind :
    (key p xs : Bytes) (i j : ℕ) → j ≡ length p + i → OccursAt key xs i → OccursAt key (p ++ xs) j
OccursAt-behind key p xs i j h (rest, e) = (
  rest,
  sym (drop-drop i (length p) j (p ++ xs) (omega arith))
      ∙ ap (drop i) (drop-append (length p) p xs refl)
      ∙ e,
)

pub OccursAt-in_back :
    (key p xs : Bytes) (i j : ℕ) → j ≡ length p + i → OccursAt key (p ++ xs) j → OccursAt key xs i
OccursAt-in_back key p xs i j h (rest, e) = (
  rest,
  sym (ap (drop i) (drop-append (length p) p xs refl))
      ∙ drop-drop i (length p) j (p ++ xs) (omega arith)
      ∙ e,
)

-- No quotation mark stands in the blanks and the number behind a key.
pub clear :
    (before key blanks value after : Bytes) (j : ℕ)
    → AllPass is_blank blanks
    → AllPass is_number_char value
    → length before + length key ≤ j
    → j < length before + length key + length blanks + length value
    → ¬ (get_or (before ++ (key ++ (blanks ++ (value ++ after)))) j 0 ≡ b'"')
clear before key blanks value after j blank numeric h h' e =
    let k = j - length before in
    let n = k - length key in
    let at_blanks : get_or (blanks ++ (value ++ after)) n 0 ≡ b'"' =
      sym (get_or-append n k 0 key (blanks ++ (value ++ after)) (omega arith))
      ∙ sym (get_or-append k j 0 before (key ++ (blanks ++ (value ++ after))) (omega arith))
      ∙ e in
    elim (Bool-cases (ltb n (length blanks))) [
      | inl inside ↦
          AllPass-get_or is_blank b'"' n blanks (value ++ after) refl blank
            (ltb→lt n (length blanks) inside) at_blanks
      | inr behind ↦
          let past = ltb→le n (length blanks) behind in
          AllPass-get_or is_number_char b'"' (n - length blanks) value after refl numeric
            (omega arith)
            (sym (get_or-append (n - length blanks) n 0 blanks (value ++ after) (omega arith))
              ∙ at_blanks)
    ]

pub length-fields :
    (a b c d : Bytes) → length (a ++ (b ++ (c ++ d))) ≡ length a + length b + length c + length d
length-fields a b c d =
    omega (arith, length-append a (b ++ (c ++ d)), length-append b (c ++ d), length-append c d)

pub fields_assoc : (a b c d e : Bytes) → (a ++ (b ++ (c ++ d))) ++ e ≡ a ++ (b ++ (c ++ (d ++ e)))
fields_assoc a b c d e =
    append_assoc a (b ++ (c ++ d)) e
    ∙ ap (◌++◌ a) (append_assoc b (c ++ d) e ∙ ap (◌++◌ b) (append_assoc c d e))

-- A number stops at a quotation mark as at what stood before it.
pub StopsAt-before :
    (test : ℕ → Bool) (m xs ys : Bytes)
    → StopsAt test (m ++ xs)
    → StopsAt test ys
    → StopsAt test (m ++ ys)
StopsAt-before test [] xs ys h k = k
StopsAt-before test (c ∷ m) xs ys h k = h

pub StopsAt-quoted :
    (test : ℕ → Bool) (text : Bytes)
    → test b'"' ≡ false
    → get_or text 0 0 ≡ b'"'
    → StopsAt test text
StopsAt-quoted test [] fails e = tt
StopsAt-quoted test (c ∷ cs) fails e = ap test e ∙ fails

-- A key begins with a quotation mark.
abbrev pub IsQuoted : Bytes → Type 0
IsQuoted key = (rest : Bytes) → get_or (key ++ rest) 0 0 ≡ b'"'

-- Two keys never overlap.
abbrev pub IsApart : Bytes → Bytes → Type 0
IsApart key other =
    (text : Bytes) (i j : ℕ)
    → OccursAt key text i
    → OccursAt other text j
    → (i + length key ≤ j) ⊎ (j + length other ≤ i)

-- A key behind another stands behind its value.
pub past_value :
    (key other text : Bytes) (k : IsKeyed key text) (j : ℕ)
    → IsQuoted other
    → OccursAt other text j
    → length k.before + length key ≤ j
    → length k.before + length key + length k.blanks + length k.value ≤ j
past_value key other text k j quoted o h =
    elim (Bool-cases (ltb j (length k.before + length key + length k.blanks + length k.value))) [
      | inr past ↦ ltb→le _ _ past
      | inl inside ↦ absurd (
          clear k.before key k.blanks k.value k.after j k.blanks_pass k.value_passes h
            (ltb→lt _ _ inside)
            (sym (ap (λ t. get_or t j 0) k.text_is)
              ∙ occurs_byte other text j 0 j o (omega arith)
              ∙ quoted o.0))
    ]
