-- ===== src/Frame/Extract/Value.antt =====
-- What the reading side finds behind a key.
use imx8mp_pipe_line_setup.Prelude.{
  ℕ, ◌+◌, ◌-◌, ◌<◌, ◌≡◌, refl, sym, ap, ◌∙◌, ◌⊎◌, inl, inr, true, false, Option, none, some, [],
  ◌∷◌, arith, ◌==◌, ◌>>=◌, Bool-cases, Option-cases, length, take, drop, Bytes, length-take,
  length-drop,
}
use imx8mp_pipe_line_setup.Double.{Stdio}
use imx8mp_pipe_line_setup.Frame.Search.{find_substr, find_substr-IsFirst, OccursAt}
use imx8mp_pipe_line_setup.Frame.Span.{find_value_span, parse_double_span_lem}
use imx8mp_pipe_line_setup.Frame.Keyed.{IsKeyed, Cuts, find_value_span-Cuts}
use imx8mp_pipe_line_setup.Frame.Extract.{
  joystick_x_key, joystick_y_key, value_at, extract_double_field, bridge_extract_joystick,
}

-- The number behind the first occurrence of a key: of the first 63 bytes of the text of number characters
-- there; and nothing if there is no key, or no such character behind it.
pub data Extracted {W : Type 0} ⦃s : Stdio W⦄ (key input : Bytes) (o : Option W) : Type 0 where
  absent : ((i : ℕ) → ¬ OccursAt key input i) → o ≡ none → Extracted key input o
  empty : (parts : IsKeyed key input) → parts.value ≡ [] → o ≡ none → Extracted key input o
  read :
      (parts : IsKeyed key input)
      → 0 < length parts.value
      → o ≡ some (s.strtod (take 63 parts.value))
      → Extracted key input o

empty_of_length : (b : Bytes) → length b ≡ 0 → b ≡ []
empty_of_length [] e = refl
empty_of_length (c ∷ cs) e = absurd (omega arith)

==→≡ : (m n : ℕ) → (m == n) ≡ true → m ≡ n
==→≡ m n e = ground arith

==→≢ : (m n : ℕ) → (m == n) ≡ false → (m < n) ⊎ (n < m)
==→≢ m n e = ground arith

-- Two values, if both are there.
abbrev pub both {ℓ} : {A : Type ℓ} → Option A → Option A → Option (A × A)
both none y = none
both (some a) none = none
both (some a) (some b) = some (a, b)

module _ {W : Type 0} ⦃s : Stdio W⦄ where
  pub value_at-Extracted :
      (input key : Bytes) (at : ℕ)
      → Cuts key input at (find_value_span input (at + length key))
      → Extracted key input (value_at {W = W} input (at + length key))
  unfolding value_at
  value_at-Extracted input key at cuts =
      let span = find_value_span input (at + length key) in
      let size : length cuts.parts.value ≡ span.value_end - span.value_start = omega (
        arith,
        ap length (sym cuts.value_is),
        length-take (span.value_end - span.value_start) (drop span.value_start input),
        length-drop span.value_start input,
        cuts.inside,
      ) in
      elim (Bool-cases (span.value_start == span.value_end)) [
        | inl same ↦ rw same (
            empty cuts.parts
              (empty_of_length cuts.parts.value
                (omega (arith, size, ==→≡ span.value_start span.value_end same)))
              refl)
        | inr apart ↦ rw apart (
            read cuts.parts
              (omega (arith, size, cuts.ordered, ==→≢ span.value_start span.value_end apart))
              (ap some (
                parse_double_span_lem input span.value_start span.value_end
                ∙ ap (λ v. s.strtod (take 63 v)) cuts.value_is)))
      ]

  -- extract_double_field, with a key that is not empty, reads the first 63 bytes of the number characters
  -- behind the first occurrence of the key; it finds nothing only without the key, or where no number
  -- character follows it.
  pub extract_double_field-Extracted :
      (input key : Bytes)
      → 0 < length key
      → Extracted key input (extract_double_field {W = W} input key)
  unfolding extract_double_field
  extract_double_field-Extracted input key ne = elim (Option-cases (find_substr input key)) [
    | inl missing ↦
        rw (missing, extract_double_field)
          (absent (rw missing at (find_substr-IsFirst input key ne)) refl)
    | inr (at, found) ↦
        rw (found, extract_double_field)
          (value_at-Extracted input key at (find_value_span-Cuts key input at ne found))
  ]

  -- bridge_extract_joystick returns both numbers, each read from behind the first occurrence of its key,
  -- if both are there, and nothing if one is missing.
  pub bridge_extract_joystick-Extracted :
      (input : Bytes)
      → (x : Option W) × (y : Option W) × Extracted joystick_x_key input x
        × Extracted joystick_y_key input y
        × (bridge_extract_joystick input ≡ both x y)
  unfolding bridge_extract_joystick
  bridge_extract_joystick-Extracted input =
      let x = extract_double_field-Extracted input joystick_x_key (omega arith) in
      let y = extract_double_field-Extracted input joystick_y_key (omega arith) in
      (_, _, x, y, both_lem _ _)
    where
      both_lem : (x y : Option W) → (x >>= λ a. y >>= λ b. some (a, b)) ≡ both x y
      both_lem none y = refl
      both_lem (some a) none = refl
      both_lem (some a) (some b) = refl
