-- ===== src/Frame/Span.antt =====
-- `find_value_span` and `parse_double_span` of src/frame_bridge.cpp.
use imx8mp_pipe_line_setup.Prelude.{
  ℕ, ◌+◌, ◌-◌, ◌≤◌, ◌≡◌, refl, sym, ap, ◌∙◌, Bool, true, false, ◌&&◌, ◌||◌, inl, inr, [], ◌∷◌, ◌++◌,
  arith, leb, ◌==◌, Bool-cases, if◌then◌else◌, length, drop, take, All, Bytes, length-append,
  length-drop, drop-drop, take-append, drop-append, take-take, take_all, length-take, leb→le,
  leb→lt,
}
use imx8mp_pipe_line_setup.Double.{Stdio}

abbrev pub is_blank : ℕ → Bool
is_blank c = c == b' ' || c == b'\t'

-- The characters that a number may hold.
abbrev pub is_number_char : ℕ → Bool
is_number_char c =
    leb b'0' c && leb c b'9' || c == b'.' || c == b'-' || c == b'+' || c == b'e' || c == b'E'

-- `while (i < in_len && test(in[i])) i++`, from index `i`, where `at` begins.
pub skip : (ℕ → Bool) → Bytes → ℕ → ℕ
skip test [] i = i
skip test (c ∷ cs) i = if test c then skip test cs (i + 1) else i

pub record Span : Type 0 where
  pub value_start : ℕ
  pub value_end : ℕ

unfoldable pub find_value_span : Bytes → ℕ → Span
unfolding skip
find_value_span input key_end =
    let start = skip is_blank (drop key_end input) key_end in
    record { value_start = start; value_end = skip is_number_char (drop start input) start }

-- The bytes from index `start` up to `end`.
abbrev pub slice : Bytes → ℕ → ℕ → Bytes
slice input start end = take (end - start) (drop start input)

-- The local array holds 63 characters and the terminator.
unfoldable pub parse_double_span : {W : Type 0} ⦃s : Stdio W⦄ → Bytes → ℕ → ℕ → W
parse_double_span ⦃s⦄ input start end =
    let len = end - start in
    let len' : ℕ = if leb 64 len then 63 else len in s.strtod (take len' (drop start input))

-- `test` fails on the first byte, if there is one.
abbrev pub StopsAt : (ℕ → Bool) → Bytes → Type 0
StopsAt test [] = Unit
StopsAt test (c ∷ cs) = test c ≡ false

abbrev pub AllPass : (ℕ → Bool) → Bytes → Type 0
AllPass test = All λ c. test c ≡ true

-- The loop stops behind the longest prefix on which the test holds.
pub record Skips (test : ℕ → Bool) (at : Bytes) (i j : ℕ) : Type 0 where
  pub passed : Bytes
  pub rest : Bytes
  pub splits : at ≡ passed ++ rest
  pub reached : j ≡ i + length passed
  pub all_pass : AllPass test passed
  pub stops : StopsAt test rest

pub skip-Skips : (test : ℕ → Bool) (at : Bytes) (i : ℕ) → Skips test at i (skip test at i)
unfolding skip
skip-Skips test [] i = record {
  passed = [];
  rest = [];
  splits = refl;
  reached = omega arith;
  all_pass = tt;
  stops = tt;
}
skip-Skips test (c ∷ cs) i = elim (Bool-cases (test c)) [
  | inl pass ↦
      let later = skip-Skips test cs (i + 1) in
      rw pass (record {
        passed = c ∷ later.passed;
        rest = later.rest;
        splits = ap (◌∷◌ c) later.splits;
        reached = omega (arith, later.reached);
        all_pass = (pass, later.all_pass);
        stops = later.stops;
      })
  | inr stop ↦ rw stop (record {
    passed = [];
    rest = c ∷ cs;
    splits = refl;
    reached = omega arith;
    all_pass = tt;
    stops = stop;
  })
]

-- What follows index `key_end` is blanks, then the value, then a byte that no number holds.
pub record IsValueSpan (input : Bytes) (key_end : ℕ) (s : Span) : Type 0 where
  pub blanks : Bytes
  pub value : Bytes
  pub rest : Bytes
  pub splits : drop key_end input ≡ blanks ++ (value ++ rest)
  pub blanks_pass : AllPass is_blank blanks
  pub value_passes : AllPass is_number_char value
  pub blanks_stop : StopsAt is_blank (value ++ rest)
  pub value_stops : StopsAt is_number_char rest
  pub start_is : s.value_start ≡ key_end + length blanks
  pub end_is : s.value_end ≡ s.value_start + length value

-- The span of find_value_span is the longest run of number characters behind the longest run of blanks
-- from a given index.
pub find_value_span-IsValueSpan :
    (input : Bytes) (key_end : ℕ) → IsValueSpan input key_end (find_value_span input key_end)
unfolding find_value_span
find_value_span-IsValueSpan input key_end =
    let start = skip is_blank (drop key_end input) key_end in
    let before = skip-Skips is_blank (drop key_end input) key_end in
    let number = skip-Skips is_number_char (drop start input) start in
    let behind : drop start input ≡ before.rest =
      sym (drop-drop (length before.passed) key_end start input before.reached)
      ∙ ap (drop (length before.passed)) before.splits
      ∙ drop-append (length before.passed) before.passed before.rest refl in
    let rest_is : before.rest ≡ number.passed ++ number.rest = sym behind ∙ number.splits in
    record {
      blanks = before.passed;
      value = number.passed;
      rest = number.rest;
      splits = before.splits ∙ ap (◌++◌ before.passed) rest_is;
      blanks_pass = before.all_pass;
      value_passes = number.all_pass;
      blanks_stop = rw rest_is at before.stops;
      value_stops = number.stops;
      start_is = before.reached;
      end_is = number.reached;
    }

pub record InBounds (input : Bytes) (key_end : ℕ) (s : Span) : Type 0 where
  pub after_key : key_end ≤ s.value_start
  pub ordered : s.value_start ≤ s.value_end
  pub inside : s.value_end ≤ length input

pub find_value_span-InBounds :
    (input : Bytes) (key_end : ℕ)
    → key_end ≤ length input
    → InBounds input key_end (find_value_span input key_end)
find_value_span-InBounds input key_end h =
    let spec = find_value_span-IsValueSpan input key_end in
    let total = ap length spec.splits in
    let parts = length-append spec.blanks (spec.value ++ spec.rest) in
    let tail = length-append spec.value spec.rest in
    let dropped = length-drop key_end input in
    let start_is = spec.start_is in
    let end_is = spec.end_is in
    record { after_key = omega arith; ordered = omega arith; inside = omega arith }

-- The value that the span delimits.
pub slice-value :
    (input : Bytes) (key_end : ℕ)
    → let s = find_value_span input key_end in
      slice input s.value_start s.value_end ≡ (find_value_span-IsValueSpan input key_end).value
slice-value input key_end =
    let spec = find_value_span-IsValueSpan input key_end in
    let s = find_value_span input key_end in
    let behind : drop s.value_start input ≡ spec.value ++ spec.rest =
      sym (drop-drop (length spec.blanks) key_end s.value_start input spec.start_is)
      ∙ ap (drop (length spec.blanks)) spec.splits
      ∙ drop-append (length spec.blanks) spec.blanks (spec.value ++ spec.rest) refl in
    rw behind (take-append _ spec.value spec.rest (omega (arith, spec.end_is)))

-- Of a longer number only the first 63 characters are read.
pub parse_double_span_lem :
    {W : Type 0} ⦃s : Stdio W⦄ (input : Bytes) (start end : ℕ)
    → parse_double_span input start end ≡ s.strtod (take 63 (slice input start end))
unfolding parse_double_span
parse_double_span_lem ⦃s⦄ input start end =
    let len = end - start in
    elim (Bool-cases (leb 64 len)) [
      | inl long ↦
          rw (long, parse_double_span)
            (ap s.strtod
              (sym (take-take 63 len (drop start input) (omega (arith, leb→le 64 len long)))))
      | inr short ↦
          rw (short, parse_double_span)
            (ap s.strtod (
              sym (
                take_all 63 (take len (drop start input))
                  (omega (arith, leb→lt 64 len short, length-take len (drop start input))))))
    ]
