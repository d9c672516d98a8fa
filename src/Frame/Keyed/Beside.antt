-- ===== src/Frame/Keyed/Beside.antt =====
-- A new value behind one key leaves another key and its value as they were.
use mathlib.Core.Path.{subst}
use imx8mp_pipe_line_setup.Prelude.{
  ℕ, ◌+◌, ◌-◌, ◌≤◌, ◌<◌, ◌≡◌, refl, sym, ap, ◌∙◌, inl, inr, ◌++◌, arith, ltb, ltb→lt, ltb→le,
  Bool-cases, length, Bytes, append_assoc, length-append,
}
use imx8mp_pipe_line_setup.Frame.Search.{OccursAt}
use imx8mp_pipe_line_setup.Frame.Span.{is_blank, is_number_char, AllPass, StopsAt}
use imx8mp_pipe_line_setup.Frame.Keyed.{IsKeyed}
use imx8mp_pipe_line_setup.Frame.Keyed.Single.{occurs_byte}
use imx8mp_pipe_line_setup.Frame.Keyed.Unique.{OccursAt-prefix, IsKeyed-OccursAt}
use imx8mp_pipe_line_setup.Frame.Keyed.Other.{
  split_between, OccursAt-behind, OccursAt-in_back, clear, length-fields, fields_assoc,
  StopsAt-before, StopsAt-quoted, IsQuoted, IsApart, past_value,
}

module _ (key other digits text : Bytes) (k : IsKeyed key text) (l : IsKeyed other text)
    (key_quoted : IsQuoted key) (quoted : IsQuoted other) (apart : IsApart key other)
    (numeric : AllPass is_number_char digits) (ne : 0 < length key) where
  abbrev new_tail : Bytes
  new_tail = other ++ (l.blanks ++ (digits ++ l.after))

  abbrev old_tail : Bytes
  old_tail = other ++ (l.blanks ++ (l.value ++ l.after))

  -- An occurrence before the other key is one of the old text.
  occurs_before :
      (n : ℕ)
      → n + length key ≤ length l.before
      → OccursAt key (l.before ++ new_tail) n
      → OccursAt key text n
  occurs_before n h o =
      subst (λ t. OccursAt key t n) (sym l.text_is)
        (OccursAt-prefix key l.before new_tail old_tail n h o)

  -- The key stands before the other.
  kept_before :
      length k.before + length key ≤ length l.before
      → (w : IsKeyed key (l.before ++ new_tail)) × (w.value ≡ k.value)
  kept_before h =
      let past =
        past_value key other text k (length l.before) quoted (IsKeyed-OccursAt other text l) h in
      let front = k.before ++ (key ++ (k.blanks ++ k.value)) in
      let whole : front ++ k.after ≡ l.before ++ old_tail =
        fields_assoc k.before key k.blanks k.value k.after ∙ sym k.text_is ∙ l.text_is in
      let (m, front_is, back_is) =
        split_between front k.after l.before old_tail whole
          (omega (arith, length-fields k.before key k.blanks k.value)) in
      let marked = quoted (l.blanks ++ (digits ++ l.after)) in
      (
        record {
          before = k.before;
          blanks = k.blanks;
          value = k.value;
          after = m ++ new_tail;
          text_is =
              ap (λ b. b ++ new_tail) front_is
              ∙ append_assoc front m new_tail
              ∙ fields_assoc k.before key k.blanks k.value (m ++ new_tail);
          first = λ n less o. k.first n less (occurs_before n (omega arith) o);
          blanks_pass = k.blanks_pass;
          blanks_stop = subst (StopsAt is_blank) (append_assoc k.value m new_tail) (
              StopsAt-before is_blank (k.value ++ m) old_tail new_tail
                (subst (StopsAt is_blank)
                  (ap (◌++◌ k.value) back_is ∙ sym (append_assoc k.value m old_tail)) k.blanks_stop)
                (StopsAt-quoted is_blank new_tail refl marked));
          value_passes = k.value_passes;
          value_stops =
              StopsAt-before is_number_char m old_tail new_tail
                (subst (StopsAt is_number_char) back_is k.value_stops)
                (StopsAt-quoted is_number_char new_tail refl marked);
        },
        refl,
      )

  module _ (m : Bytes) (front_is : k.before ≡ (l.before ++ (other ++ (l.blanks ++ l.value))) ++ m)
      (back_is : l.after ≡ m ++ (key ++ (k.blanks ++ (k.value ++ k.after)))) where
    abbrev before_new : Bytes
    before_new = l.before ++ (other ++ (l.blanks ++ (digits ++ m)))

    nowhere_before : (n : ℕ) → n < length before_new → ¬ OccursAt key (l.before ++ new_tail) n
    nowhere_before n less o =
        let front = l.before ++ (other ++ (l.blanks ++ l.value)) in
        let front_len = length-fields l.before other l.blanks l.value in
        let front' = l.before ++ (other ++ (l.blanks ++ digits)) in
        let front'_len = length-fields l.before other l.blanks digits in
        let new_len = length-fields l.before other l.blanks (digits ++ m) in
        let key_at : length k.before ≡ length front + length m =
          ap length front_is ∙ length-append front m in
        let other_there =
          OccursAt-behind other l.before new_tail 0 (length l.before) (omega arith)
            (l.blanks ++ (digits ++ l.after), refl) in
        elim (apart (l.before ++ new_tail) n (length l.before) o other_there) [
          | inl h ↦ k.first n (omega (arith, h, ne, key_at, front_len)) (occurs_before n h o)
          | inr h ↦ elim (Bool-cases (ltb n (length front'))) [
            | inl inside ↦
                clear l.before other l.blanks digits l.after n l.blanks_pass numeric h
                  (omega (arith, ltb→lt n (length front') inside))
                  (occurs_byte key (l.before ++ new_tail) n 0 n o (omega arith) ∙ key_quoted o.0)
            | inr behind ↦
                let past = ltb→le n (length front') behind in
                let q = n - length front' in
                let in_after = OccursAt-in_back key front' l.after q n (omega arith) (
                  subst (λ t. OccursAt key t n)
                    (sym (fields_assoc l.before other l.blanks digits l.after)) o) in
                k.first (length front + q)
                  (omega (
                    arith,
                    length-append digits m,
                    new_len,
                    front_len,
                    front'_len,
                    key_at,
                    past,
                    less,
                  ))
                  (subst (λ t. OccursAt key t (length front + q))
                    (fields_assoc l.before other l.blanks l.value l.after ∙ sym l.text_is)
                    (OccursAt-behind key front l.after q (length front + q) refl in_after))
          ]
        ]

    kept_behind_parts : (w : IsKeyed key (l.before ++ new_tail)) × (w.value ≡ k.value)
    kept_behind_parts =
        let rest = key ++ (k.blanks ++ (k.value ++ k.after)) in
        (
          record {
            before = before_new;
            blanks = k.blanks;
            value = k.value;
            after = k.after;
            text_is =
                ap (λ a. l.before ++ (other ++ (l.blanks ++ (digits ++ a)))) back_is
                ∙ sym (
                    fields_assoc l.before other l.blanks (digits ++ m) rest
                    ∙ ap (λ t. l.before ++ (other ++ (l.blanks ++ t)))
                        (append_assoc digits m rest));
            first = nowhere_before;
            blanks_pass = k.blanks_pass;
            blanks_stop = k.blanks_stop;
            value_passes = k.value_passes;
            value_stops = k.value_stops;
          },
          refl,
        )

  -- The key stands behind the other.
  kept_behind :
      length l.before + length other ≤ length k.before
      → (w : IsKeyed key (l.before ++ new_tail)) × (w.value ≡ k.value)
  kept_behind h =
      let past =
        past_value other key text l (length k.before) key_quoted (IsKeyed-OccursAt key text k) h in
      let front = l.before ++ (other ++ (l.blanks ++ l.value)) in
      let whole : front ++ l.after ≡ k.before ++ (key ++ (k.blanks ++ (k.value ++ k.after))) =
        fields_assoc l.before other l.blanks l.value l.after ∙ sym l.text_is ∙ k.text_is in
      let (m, front_is, back_is) =
        split_between front l.after k.before _ whole
          (omega (arith, length-fields l.before other l.blanks l.value)) in
      kept_behind_parts m front_is back_is

  pub IsKeyed-beside : (w : IsKeyed key (l.before ++ new_tail)) × (w.value ≡ k.value)
  IsKeyed-beside =
      elim (apart text (length k.before) (length l.before) (IsKeyed-OccursAt key text k)
        (IsKeyed-OccursAt other text l)) [ inl h ↦ kept_before h | inr h ↦ kept_behind h ]
