-- ===== src/Frame/Stamp/Plain.antt =====
-- `bridge_stamp_frame` as a function from the frame to the stamped text, without the storage.
use mathlib.Core.Path.{subst}
use imx8mp_pipe_line_setup.Prelude.{
  ℕ, ◌+◌, ◌^◌, ◌≤◌, ◌<◌, ◌≡◌, refl, sym, ap, ◌∙◌, ◌||◌, false, inl, inr, Option, none, some, [],
  ◌∷◌, ◌++◌, arith, ltb, leb, ltb→le, Bool-cases, Option-cases, if◌then◌else◌, length, take, drop,
  Bytes, ◌>>=◌, >>=-some, All, take_all, take-append,
}
use imx8mp_pipe_line_setup.Prelude.Int.{pos, minus_one, to_int, to_int_small}
use imx8mp_pipe_line_setup.Memory.{snprintf, memcpy_fits, length_written}
use imx8mp_pipe_line_setup.Memory.Pieces.{
  append_all_lem, concat, joined, joined-concat, IsSourced, Supply-IsSourced, length-joined,
  total_len,
}
use imx8mp_pipe_line_setup.Memory.Splice.{Holds}
use imx8mp_pipe_line_setup.Double.{Double, Stdio}
use imx8mp_pipe_line_setup.Frame.Span.{Span, slice, find_value_span, parse_double_span}
use imx8mp_pipe_line_setup.Frame.Keyed.{Cuts, find_value_span-Cuts}
use imx8mp_pipe_line_setup.Frame.Extract.{find_sent_time_key}
use imx8mp_pipe_line_setup.Frame.Edit.Plain.{within}
use imx8mp_pipe_line_setup.Frame.Stamp.{
  sent_key, new_ntp_key, processing_key, transfer_key, received_key, Times, Stamped, Renderings,
  stamp_unchanged, does_not_fit, pieces, stamped_len, stamp_at, bridge_stamp_frame,
}
use imx8mp_pipe_line_setup.Frame.Stamp.Supply.{find_sent_time_key-SentKeyFound, pieces-Supply}

total_len-pieces :
    (input : Bytes) (at : ℕ) (span : Span) (r : Renderings)
    → stamped_len input at span r ≡ total_len (pieces input at span r)
unfolding stamped_len pieces
total_len-pieces input at span r = omega arith

module _ {W : Type 0} ⦃d : Double W⦄ ⦃s : Stdio W⦄ where
  -- The two times, from the span of the sent time.
  abbrev pub span_times : Bytes → Span → W → W → Times W
  span_times input span received forward = record {
    frame_transfer_time = d.sub received (parse_double_span input span.value_start span.value_end);
    processing_time = d.sub forward received;
  }

  -- The frame with the sent time renamed and the four numbers behind it.
  abbrev pub stamped_text : Bytes → ℕ → Span → W → W → Bytes
  stamped_text input at span received forward =
      let t = span_times input span received forward in
      concat (
        take at input
        ∷ sent_key
        ∷ slice input span.value_start span.value_end
        ∷ new_ntp_key
        ∷ s.fixed 6 forward
        ∷ processing_key
        ∷ s.fixed 6 t.processing_time
        ∷ transfer_key
        ∷ s.fixed 6 t.frame_transfer_time
        ∷ received_key
        ∷ s.fixed 6 received
        ∷ drop span.value_end input
        ∷ [])

  pub stamp_span : Bytes → ℕ → Span → W → W → ℕ → Option (Bytes × Option (Times W))
  stamp_span input at span received forward cap =
      let t = span_times input span received forward in
      if leb 32 (length (s.fixed 6 forward))
        || (leb 32 (length (s.fixed 6 received))
            || (leb 32 (length (s.fixed 6 t.processing_time))
                || leb 32 (length (s.fixed 6 t.frame_transfer_time))))
      then none
      else (do text ← within cap (stamped_text input at span received forward); some (text, some t))

  -- The text and the times, or `none` for a frame that is dropped.
  unfoldable pub stamp_text : Bytes → W → W → ℕ → Option (Bytes × Option (Times W))
  unfolding stamp_span
  stamp_text input received forward cap = elim (find_sent_time_key input) [
    | none ↦ (do text ← within cap input; some (text, none))
    | some key ↦
        stamp_span input key.key_start (find_value_span input (key.key_start + key.key_len))
          received forward cap
  ]

  -- What the storage holds of a text, or that the call was refused and left it alone.
  pub data StampsAs (out : Bytes) (cap : ℕ) (r : Stamped W) (o : Option (Bytes × Option (Times W)))
      : Type 0 where
    refused : o ≡ none → r.ret ≡ minus_one → r.out ≡ out → StampsAs out cap r o
    written :
        (text : Bytes)
        → o ≡ some (text, r.times)
        → length text ≤ cap
        → r.ret ≡ pos (length text)
        → Holds r.out text (length out)
        → StampsAs out cap r o

  module _ (input : Bytes) (received forward : W) (out : Bytes) (cap : ℕ) (room : cap ≤ length out)
      (small : cap < 2 ^ 31) (key : Bytes) (at : ℕ) (span : Span)
      (cuts : Cuts key input at span) where
    abbrev printed_all : Renderings
    printed_all =
        let t = span_times input span received forward in
        record {
          forward = snprintf 32 (s.fixed 6 forward);
          received = snprintf 32 (s.fixed 6 received);
          processing = snprintf 32 (s.fixed 6 t.processing_time);
          transfer = snprintf 32 (s.fixed 6 t.frame_transfer_time);
        }

    -- The pieces together are the text, and their lengths its length.
    pieces-plain :
        does_not_fit printed_all ≡ false
        → (joined (pieces input at span printed_all) ≡ stamped_text input at span received forward)
          × All IsSourced (pieces input at span printed_all)
          × (stamped_len input at span printed_all
              ≡ length (stamped_text input at span received forward))
    unfolding snprintf
    pieces-plain short =
        let t = span_times input span received forward in
        let supply =
          pieces-Supply input key at span cuts (s.fixed 6 forward) (s.fixed 6 received)
            (s.fixed 6 t.processing_time) (s.fixed 6 t.frame_transfer_time) (ground arith)
            (ground arith) (ground arith) (ground arith) in
        let sourced = Supply-IsSourced (pieces input at span printed_all) _ supply in
        let joined_is = joined-concat (pieces input at span printed_all) _ supply ∙ λ i. concat (
          sym cuts.before_is i
          ∷ sent_key
          ∷ sym cuts.value_is i
          ∷ new_ntp_key
          ∷ s.fixed 6 forward
          ∷ processing_key
          ∷ s.fixed 6 t.processing_time
          ∷ transfer_key
          ∷ s.fixed 6 t.frame_transfer_time
          ∷ received_key
          ∷ s.fixed 6 received
          ∷ sym cuts.end_is i
          ∷ []) in
        (
          joined_is,
          sourced,
          total_len-pieces input at span printed_all
              ∙ sym (length-joined (pieces input at span printed_all) sourced)
              ∙ ap length joined_is,
        )

    stamp_at-StampsAs :
        (r : Stamped W) × (stamp_at input at span received forward out cap ≡ some r)
        × StampsAs out cap r (stamp_span input at span received forward cap)
    unfolding stamp_at stamp_span snprintf
    stamp_at-StampsAs =
        let plain = stamped_text input at span received forward in
        let t = span_times input span received forward in
        elim (Bool-cases (does_not_fit printed_all)) [
          | inl long ↦ (
            record { ret = minus_one; out = out; times = some t },
            rw long,
            refused (rw long) refl refl,
          )
          | inr short ↦
              let (joined_is, sourced, len_is) = pieces-plain short in
              elim (Bool-cases (ltb cap (stamped_len input at span printed_all))) [
                | inl over ↦ (
                  record { ret = minus_one; out = out; times = some t },
                  rw (short, over),
                  refused (rw (short, sym len_is, over)) refl refl,
                )
                | inr under ↦
                    let fits = ltb→le cap _ under in
                    let (filled, done, holds) =
                      append_all_lem (pieces input at span printed_all) out sourced
                        (omega (arith, ap length joined_is)) in
                    (
                      record {
                        ret = to_int (length (joined (pieces input at span printed_all)));
                        out = filled;
                        times = some t;
                      },
                      rw (short, under) (>>=-some _ done refl),
                      written plain (rw (short, sym len_is, under) refl) (omega arith)
                          (rw joined_is (to_int_small (length plain) (omega arith)))
                          (subst (λ b. Holds filled b (length out)) joined_is holds),
                    )
              ]
        ]

  unchanged-StampsAs :
      (input out : Bytes) (cap : ℕ)
      → cap ≤ length out
      → cap < 2 ^ 31
      → (r : Stamped W) × (stamp_unchanged input out cap ≡ some r)
        × StampsAs out cap r (within cap input >>= λ text. some (text, none))
  unfolding stamp_unchanged
  unchanged-StampsAs input out cap room small = elim (Bool-cases (ltb cap (length input))) [
    | inl over ↦
        (record { ret = minus_one; out = out; times = none }, rw over, refused (rw over) refl refl)
    | inr under ↦
        let fits = ltb→le cap (length input) under in
        (
          record {
            ret = to_int (length input);
            out = take (length input) input ++ drop (0 + length input) out;
            times = none;
          },
          rw (under, memcpy_fits out 0 input (length input) (omega arith) (omega arith)),
          written input (rw under refl) fits (to_int_small (length input) (omega arith)) (record {
            text_is =
                rw (take_all (length input) input (omega arith))
                  (take-append (length input) input _ refl);
            size_is = length_written out 0 input (length input) (omega arith) (omega arith);
          }),
        )
  ]

  -- The call does not fault, and stamps as the function on texts.
  pub bridge_stamp_frame-StampsAs :
      (input : Bytes) (received forward : W) (out : Bytes) (cap : ℕ)
      → cap ≤ length out
      → cap < 2 ^ 31
      → (r : Stamped W) × (bridge_stamp_frame input received forward out cap ≡ some r)
        × StampsAs out cap r (stamp_text input received forward cap)
  unfolding bridge_stamp_frame stamp_text
  bridge_stamp_frame-StampsAs input received forward out cap room small =
      let keys = find_sent_time_key-SentKeyFound input in
      elim (Option-cases (find_sent_time_key input)) [
        | inl absent ↦
            rw (absent, bridge_stamp_frame, stamp_text)
              (unchanged-StampsAs input out cap room small)
        | inr (k, found) ↦
            let (key, is_sent_key, ne, len_is, at_is) = rw found at keys in
            rw (found, bridge_stamp_frame, stamp_text, len_is)
              (stamp_at-StampsAs input received forward out cap room small key k.key_start _
                (find_value_span-Cuts key input k.key_start ne at_is))
      ]
