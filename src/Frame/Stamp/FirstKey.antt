-- ===== src/Frame/Stamp/FirstKey.antt =====
-- The first sent time in the text that `bridge_stamp_frame` writes is the new one.
use imx8mp_pipe_line_setup.Prelude.{
  ℕ, ◌+◌, ◌-◌, ◌≤◌, ◌<◌, ◌≡◌, refl, sym, ap, ◌∙◌, true, inl, inr, [], ◌∷◌, ◌++◌, arith, ltb, ltb→lt,
  ltb→le, Bool-cases, length, get_or, Bytes, length-append, append_assoc,
}
use imx8mp_pipe_line_setup.Frame.Search.{OccursAt}
use imx8mp_pipe_line_setup.Frame.Span.{is_number_char, AllPass, StopsAt}
use imx8mp_pipe_line_setup.Frame.Keyed.{IsKeyed}
use imx8mp_pipe_line_setup.Frame.Keyed.Single.{
  nowhere, nowhere_lem, get_or-append, occurs_byte, AllPass-get_or,
}
use imx8mp_pipe_line_setup.Frame.Keyed.Unique.{digits-StopsAt}
use imx8mp_pipe_line_setup.Frame.Extract.{ntp_key}
use imx8mp_pipe_line_setup.Frame.Stamp.{sent_key, new_ntp_key}

-- No key begins inside the new name of the sent time, and the new name does not begin inside a key.
sent_key-nowhere : (rest : Bytes) → nowhere b'"' b'n' 27 (sent_key ++ rest) ≡ true
unfolding nowhere
sent_key-nowhere rest = refl

ntp_key-nowhere : (rest : Bytes) → nowhere b'"' b'c' 11 (ntp_key ++ rest) ≡ true
unfolding nowhere
ntp_key-nowhere rest = refl

length-sent_key : length sent_key ≡ 27
length-sent_key = refl

module _ (before value tail : Bytes) (numeric : AllPass is_number_char value) where
  abbrev pub text : Bytes
  text = before ++ (sent_key ++ (value ++ (new_ntp_key ++ tail)))

  from_name :
      (j k : ℕ)
      → j ≡ length before + k
      → get_or text j 0 ≡ get_or (sent_key ++ (value ++ (new_ntp_key ++ tail))) k 0
  from_name j k h = get_or-append k j 0 before _ h

  from_value :
      (j k : ℕ)
      → j ≡ length before + 27 + k
      → get_or text j 0 ≡ get_or (value ++ (new_ntp_key ++ tail)) k 0
  from_value j k h =
      from_name j (27 + k) (omega arith) ∙ get_or-append k (27 + k) 0 sent_key _ (omega arith)

  -- A key that begins before the new name, in it, in the number, or at the comma behind that.
  across : (i : ℕ) → i < length before → length before < i + 11 → ¬ OccursAt ntp_key text i
  across i h h' o =
      let k = length before - i in
      nowhere_lem b'"' b'c' 11 k (ntp_key ++ o.0) (ntp_key-nowhere o.0) (omega arith)
        (sym (occurs_byte ntp_key text i k (length before) o (omega arith))
          ∙ from_name (length before) 0 (omega arith))
        (sym (occurs_byte ntp_key text i (k + 1) (length before + 1) o (omega arith))
          ∙ from_name (length before + 1) 1 (omega arith))

  in_name : (i : ℕ) → length before ≤ i → i < length before + 27 → ¬ OccursAt ntp_key text i
  in_name i h h' o =
      let k = i - length before in
      nowhere_lem b'"' b'n' 27 k (sent_key ++ (value ++ (new_ntp_key ++ tail)))
        (sent_key-nowhere (value ++ (new_ntp_key ++ tail))) (omega arith)
        (sym (from_name i k (omega arith)) ∙ occurs_byte ntp_key text i 0 i o (omega arith))
        (sym (from_name (i + 1) (k + 1) (omega arith))
          ∙ occurs_byte ntp_key text i 1 (i + 1) o (omega arith))

  in_value :
      (i : ℕ)
      → length before + 27 ≤ i
      → i < length before + 27 + length value
      → ¬ OccursAt ntp_key text i
  in_value i h h' o =
      let k = i - (length before + 27) in
      AllPass-get_or is_number_char b'"' k value (new_ntp_key ++ tail) refl numeric (omega arith)
        (sym (from_value i k (omega arith)) ∙ occurs_byte ntp_key text i 0 i o (omega arith))

  at_comma : (i : ℕ) → i ≡ length before + 27 + length value → ¬ OccursAt ntp_key text i
  at_comma i h o = omega (
    arith,
    sym (
          from_value i (length value) h
          ∙ get_or-append 0 (length value) 0 value (new_ntp_key ++ tail) (omega arith))
        ∙ occurs_byte ntp_key text i 0 i o (omega arith),
  )

  module _ (forward_text after : Bytes) (tail_is : tail ≡ forward_text ++ after)
      (forward_numeric : AllPass is_number_char forward_text) (some_digit : 0 < length forward_text)
      (stops : StopsAt is_number_char after)
      (outside : (i : ℕ) → i + 11 ≤ length before → ¬ OccursAt ntp_key text i) where
    abbrev comma : Bytes
    comma = b',' ∷ []

    nowhere_before :
        (i : ℕ) → i < length (before ++ (sent_key ++ (value ++ comma))) → ¬ OccursAt ntp_key text i
    nowhere_before i h =
        let size = length-append before (sent_key ++ (value ++ comma)) in
        let size' = length-append value comma in
        elim (Bool-cases (ltb (length before) (i + 11))) [
          | inr inside ↦ outside i (ltb→le _ _ inside)
          | inl past ↦ elim (Bool-cases (ltb i (length before))) [
            | inl early ↦ across i (ltb→lt _ _ early) (ltb→lt _ _ past)
            | inr late ↦ elim (Bool-cases (ltb i (length before + 27))) [
              | inl name ↦ in_name i (ltb→le _ _ late) (ltb→lt _ _ name)
              | inr later ↦ elim (Bool-cases (ltb i (length before + 27 + length value))) [
                | inl number ↦ in_value i (ltb→le _ _ later) (ltb→lt _ _ number)
                | inr last ↦ at_comma i (omega (arith, ltb→le _ _ last))
              ]
            ]
          ]
        ]

    -- The new sent time is the first one of the stamped text.
    pub text-IsKeyed : IsKeyed ntp_key text
    text-IsKeyed = record {
      before = before ++ (sent_key ++ (value ++ comma));
      blanks = [];
      value = forward_text;
      after = after;
      text_is =
          ap (λ t. before ++ (sent_key ++ (value ++ (new_ntp_key ++ t)))) tail_is
          ∙ sym (
              append_assoc before (sent_key ++ (value ++ comma))
                (ntp_key ++ (forward_text ++ after))
              ∙ ap (λ t. before ++ (sent_key ++ t))
                  (append_assoc value comma (ntp_key ++ (forward_text ++ after))));
      first = nowhere_before;
      blanks_pass = tt;
      blanks_stop = digits-StopsAt forward_text after forward_numeric some_digit;
      value_passes = forward_numeric;
      value_stops = stops;
    }

    pub text_value : text-IsKeyed.value ≡ forward_text
    unfolding text-IsKeyed
    text_value = refl
