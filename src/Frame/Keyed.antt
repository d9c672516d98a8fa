-- ===== src/Frame/Keyed.antt =====
-- A key and the number behind it, as the functions of src/frame_bridge.cpp find them together.
pub mod Single
pub mod Other
pub mod Beside
pub mod Unique
use imx8mp_pipe_line_setup.Prelude.{
  ◌+◌, ◌≤◌, ◌<◌, ℕ, ◌≡◌, refl, sym, ap, ◌∙◌, some, ◌++◌, arith, length, take, drop, Bytes,
  append_assoc, length-append, length-take, take-append, drop-append, take-append-drop, drop-drop,
}
use imx8mp_pipe_line_setup.Frame.Search.{
  find_substr, find_substr-IsFirst, find_substr_bound, OccursAt,
}
use imx8mp_pipe_line_setup.Frame.Span.{
  Span, is_blank, is_number_char, AllPass, StopsAt, slice, find_value_span,
  find_value_span-IsValueSpan, find_value_span-InBounds, slice-value,
}

-- The first occurrence of `key` in `text`, the blanks behind it, the longest number behind those, and
-- the rest.
pub record IsKeyed (key text : Bytes) : Type 0 where
  pub before : Bytes
  pub blanks : Bytes
  pub value : Bytes
  pub after : Bytes
  pub text_is : text ≡ before ++ (key ++ (blanks ++ (value ++ after)))
  pub first : (i : ℕ) → i < length before → ¬ OccursAt key text i
  pub blanks_pass : AllPass is_blank blanks
  pub blanks_stop : StopsAt is_blank (value ++ after)
  pub value_passes : AllPass is_number_char value
  pub value_stops : StopsAt is_number_char after

-- The parts that a span behind the key cuts the text into.
pub record Cuts (key text : Bytes) (at : ℕ) (span : Span) : Type 0 where
  pub parts : IsKeyed key text
  pub ordered : span.value_start ≤ span.value_end
  pub inside : span.value_end ≤ length text
  pub at_is : at ≡ length parts.before
  pub before_is : take at text ≡ parts.before
  pub start_is : take span.value_start text ≡ parts.before ++ (key ++ parts.blanks)
  pub end_is : drop span.value_end text ≡ parts.after
  pub value_is : slice text span.value_start span.value_end ≡ parts.value

pub find_value_span-Cuts :
    (key text : Bytes) (at : ℕ)
    → 0 < length key
    → find_substr text key ≡ some at
    → Cuts key text at (find_value_span text (at + length key))
find_value_span-Cuts key text at ne found =
    let is_first = rw found at (find_substr-IsFirst text key ne) in
    let occurs = is_first.0 in
    let key_inside = find_substr_bound text key at ne found in
    let bounds = find_value_span-InBounds text (at + length key) key_inside in
    let spec = find_value_span-IsValueSpan text (at + length key) in
    let span = find_value_span text (at + length key) in
    let behind_key : occurs.0 ≡ spec.blanks ++ (spec.value ++ spec.rest) =
      sym (drop-append (length key) key occurs.0 refl)
      ∙ ap (drop (length key)) (sym occurs.1)
      ∙ drop-drop (length key) at (at + length key) text refl
      ∙ spec.splits in
    let text_is : text ≡ take at text ++ (key ++ (spec.blanks ++ (spec.value ++ spec.rest))) =
      sym (take-append-drop at text)
      ∙ ap (◌++◌ (take at text)) (occurs.1 ∙ ap (◌++◌ key) behind_key) in
    let before = length-append (take at text) (key ++ spec.blanks) in
    let key_blanks = length-append key spec.blanks in
    let taken = length-take at text in
    record {
      parts = record {
        before = take at text;
        blanks = spec.blanks;
        value = spec.value;
        after = spec.rest;
        text_is = text_is;
        first = λ i h. is_first.1 i (omega arith);
        blanks_pass = spec.blanks_pass;
        blanks_stop = spec.blanks_stop;
        value_passes = spec.value_passes;
        value_stops = spec.value_stops;
      };
      ordered = bounds.ordered;
      inside = bounds.inside;
      at_is = omega arith;
      before_is = refl;
      start_is =
          ap (take span.value_start) (text_is ∙ simp append_assoc)
          ∙ take-append span.value_start (take at text ++ (key ++ spec.blanks))
              (spec.value ++ spec.rest) (omega (arith, spec.start_is));
      end_is =
          ap (drop span.value_end) (text_is ∙ simp append_assoc)
          ∙ drop-append span.value_end ((take at text ++ (key ++ spec.blanks)) ++ spec.value)
              spec.rest
              (omega (
                arith,
                length-append (take at text ++ (key ++ spec.blanks)) spec.value,
                spec.start_is,
                spec.end_is,
              ));
      value_is = slice-value text (at + length key);
    }
