-- ===== src/Frame/Edit/Roundtrip.antt =====
-- What `extract_double_field` reads of a text in which `replace_value_for_key` has written a number.
use mathlib.Core.Path.{subst}
use imx8mp_pipe_line_setup.Prelude.{
  ℕ, ◌≤◌, ◌<◌, ◌^◌, ◌≡◌, refl, sym, ap, ◌∙◌, inl, inr, some, ◌++◌, arith, length, take, Bytes,
  append_assoc, length-append,
}
use imx8mp_pipe_line_setup.Frame.Search.{OccursAt}
use imx8mp_pipe_line_setup.Frame.Span.{is_number_char, AllPass}
use imx8mp_pipe_line_setup.Frame.Keyed.{IsKeyed}
use imx8mp_pipe_line_setup.Frame.Keyed.Unique.{OccursAt-prefix, digits-StopsAt}
use imx8mp_pipe_line_setup.Prelude.Int.{pos, minus_one}
use imx8mp_pipe_line_setup.Double.{Stdio}
use imx8mp_pipe_line_setup.Frame.Extract.{extract_double_field}
use imx8mp_pipe_line_setup.Frame.Extract.Read.{IsKeyed-read}
use imx8mp_pipe_line_setup.Frame.Edit.{Edited, replace_value_for_key}
use imx8mp_pipe_line_setup.Frame.Edit.Outcome.{Outcome, failed, edited, IsReplaced, IsReplacement}
use imx8mp_pipe_line_setup.Frame.Edit.Replace.{ReplaceFails, replace_value_for_key-Outcome}

module _ (key digits text result : Bytes) (replaced : IsReplacement key digits text result)
    (numeric : AllPass is_number_char digits) (some_digit : 0 < length digits) where
  -- The key of the text is the key of the new text, and the new digits are its value.
  pub result-IsKeyed : IsKeyed key result
  result-IsKeyed =
      let k = replaced.parts in
      let before_key = k.before ++ key in
      let text_is : text ≡ before_key ++ (k.blanks ++ (k.value ++ k.after)) =
        k.text_is ∙ sym (append_assoc k.before key _) in
      let result_is : result ≡ before_key ++ (k.blanks ++ (digits ++ k.after)) =
        replaced.result_is ∙ sym (append_assoc k.before key _) in
      record {
        before = k.before;
        blanks = k.blanks;
        value = digits;
        after = k.after;
        text_is = replaced.result_is;
        first = λ i h o. k.first i h (
            subst (λ t. OccursAt key t i) (sym text_is)
              (OccursAt-prefix key before_key (k.blanks ++ (digits ++ k.after))
                (k.blanks ++ (k.value ++ k.after)) i (omega (arith, length-append k.before key))
                (subst (λ t. OccursAt key t i) result_is o)));
        blanks_pass = k.blanks_pass;
        blanks_stop = digits-StopsAt digits k.after numeric some_digit;
        value_passes = numeric;
        value_stops = k.value_stops;
      }

  pub result_value : result-IsKeyed.value ≡ digits
  unfolding result-IsKeyed
  result_value = refl

module _ {W : Type 0} ⦃s : Stdio W⦄ where
  -- A number that replace_value_for_key has written is read back: if the text has the key and the call
  -- returns a length, extract_double_field finds in the new text the number that strtod makes of the
  -- first 63 bytes of the rendering. The key is not empty, the rendering is one or more number
  -- characters, and the text is within cap, cap within the buffer and less than 2 ^ 31.
  pub replace_value_for_key-extract :
      (buf : Bytes) (len cap : ℕ) (key : Bytes) (value : W) (r : Edited) (n i : ℕ)
      → 0 < length key
      → len ≤ cap
      → cap ≤ length buf
      → cap < 2 ^ 31
      → OccursAt key (take len buf) i
      → AllPass is_number_char (s.fixed 8 value)
      → 0 < length (s.fixed 8 value)
      → replace_value_for_key buf len cap key value ≡ some r
      → r.ret ≡ pos n
      → extract_double_field (take n r.buf) key ≡ some (s.strtod (take 63 (s.fixed 8 value)))
  replace_value_for_key-extract buf len cap key value r n i ne fits room small occurs numeric
        some_digit returns ret_is =
      let (r', returns', outcome) =
        replace_value_for_key-Outcome buf len cap key value ne fits room small in
      let same : r' ≡ r = cc in go r' same outcome
    where
      go :
          (r' : Edited)
          → r' ≡ r
          → Outcome
              (ReplaceFails key cap (s.fixed 8 value) (take len buf))
              (IsReplaced key (s.fixed 8 value) (take len buf))
              buf
              cap
              r'
          → extract_double_field (take n r.buf) key ≡ some (s.strtod (take 63 (s.fixed 8 value)))
      go r' same (failed why ret_is' buf_is) =
          let e : pos n ≡ minus_one = sym ret_is ∙ ap (λ r. r.ret) (sym same) ∙ ret_is' in absurd cc
      go r' same (edited text (inl (text_is, never)) short ret_is' holds) = absurd (never i occurs)
      go r' same (edited text (inr replaced) short ret_is' holds) =
          let e : pos (length text) ≡ pos n = sym ret_is' ∙ ap (λ r. r.ret) same ∙ ret_is in
          let n_is : length text ≡ n = ground arith in
          let text_is : take n r.buf ≡ text =
            (λ k. take (sym n_is k) (sym same k).buf) ∙ holds.text_is in
          ap (λ t. extract_double_field t key) text_is
          ∙ IsKeyed-read key text
              (result-IsKeyed key (s.fixed 8 value) (take len buf) text replaced numeric some_digit)
              ne
              (omega (
                arith,
                some_digit,
                ap length (
                    result_value key (s.fixed 8 value) (take len buf) text replaced numeric
                      some_digit),
              ))
          ∙ ap (λ v. some (s.strtod (take 63 v)))
              (result_value key (s.fixed 8 value) (take len buf) text replaced numeric some_digit)
