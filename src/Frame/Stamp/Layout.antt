-- ===== src/Frame/Stamp/Layout.antt =====
-- `bridge_stamp_frame` against the description of its result.
use imx8mp_pipe_line_setup.Prelude.{
  ℕ, ◌+◌, ◌^◌, ◌≤◌, ◌<◌, ◌≡◌, refl, ap, ◌∙◌, inl, inr, none, some, List, [], ◌∷◌, ◌++◌, arith, ltb,
  ltb→lt, ltb→le, Bool-cases, Option-cases, length, take, drop, Bytes, ◌>>=◌, take_all, take-append,
}
use imx8mp_pipe_line_setup.Prelude.Int.{minus_one, to_int, to_int_small}
use imx8mp_pipe_line_setup.Memory.{memcpy_fits, length_written, snprintf}
use imx8mp_pipe_line_setup.Memory.Pieces.{
  append_all, append_all_lem, joined, Supply, joined-concat, Supply-IsSourced, length-joined,
}
use imx8mp_pipe_line_setup.Double.{Double, Stdio}
use imx8mp_pipe_line_setup.Frame.Span.{Span, parse_double_span, parse_double_span_lem}
use imx8mp_pipe_line_setup.Frame.Keyed.{Cuts, find_value_span-Cuts}
use imx8mp_pipe_line_setup.Frame.Extract.{find_sent_time_key}
use imx8mp_pipe_line_setup.Frame.Stamp.Outcome.{
  IsSentKey, NoSentKey, IsStamped, long_copy, long_number, long_result, StampOutcome, copied,
  dropped, stamped,
}
use imx8mp_pipe_line_setup.Frame.Stamp.{
  sent_key, new_ntp_key, processing_key, transfer_key, received_key, Times, Stamped,
  stamp_unchanged, Renderings, does_not_fit, pieces, stamped_len, stamp_at, bridge_stamp_frame,
}
use imx8mp_pipe_line_setup.Frame.Stamp.Supply.{find_sent_time_key-SentKeyFound, pieces-Supply}

module _ {W : Type 0} ⦃d : Double W⦄ ⦃s : Stdio W⦄ where
  stamp_unchanged-StampOutcome :
      (input : Bytes) (received forward : W) (out : Bytes) (out_cap : ℕ)
      → out_cap ≤ length out
      → out_cap < 2 ^ 31
      → NoSentKey input
      → (r : Stamped W) × (stamp_unchanged input out out_cap ≡ some r)
        × StampOutcome input received forward out out_cap r
  unfolding stamp_unchanged
  stamp_unchanged-StampOutcome input received forward out out_cap h small no_key =
      elim (Bool-cases (ltb out_cap (length input))) [
        | inl over ↦ (
          record { ret = minus_one; out = out; times = none },
          rw over,
          dropped (long_copy refl no_key (ltb→lt out_cap (length input) over)) refl refl,
        )
        | inr under ↦
            let room = ltb→le out_cap (length input) under in
            (
              record {
                ret = to_int (length input);
                out = take (length input) input ++ drop (0 + length input) out;
                times = none;
              },
              rw (under, memcpy_fits out 0 input (length input) (omega arith) (omega arith)),
              copied no_key room (to_int_small (length input) (omega arith))
                  (record {
                    text_is =
                        rw (take_all (length input) input (omega arith))
                          (take-append (length input) input _ refl);
                    size_is = length_written out 0 input (length input) (omega arith) (omega arith);
                  })
                  refl,
            )
      ]

  module _ (input : Bytes) (received forward : W) (out : Bytes) (out_cap : ℕ)
      (room : out_cap ≤ length out) (small : out_cap < 2 ^ 31) (key : Bytes)
      (is_sent_key : IsSentKey input key) (at : ℕ) (span : Span)
      (cuts : Cuts key input at span) where
    abbrev times : Times W
    times = record {
      frame_transfer_time =
          d.sub received (parse_double_span input span.value_start span.value_end);
      processing_time = d.sub forward received;
    }

    abbrev renderings : Renderings
    renderings = record {
      forward = snprintf 32 (s.fixed 6 forward);
      received = snprintf 32 (s.fixed 6 received);
      processing = snprintf 32 (s.fixed 6 times.processing_time);
      transfer = snprintf 32 (s.fixed 6 times.frame_transfer_time);
    }

    abbrev result : Bytes
    result = joined (pieces input at span renderings)

    abbrev supplied : List Bytes
    supplied =
        cuts.parts.before
        ∷ sent_key
        ∷ cuts.parts.value
        ∷ new_ntp_key
        ∷ s.fixed 6 forward
        ∷ processing_key
        ∷ s.fixed 6 times.processing_time
        ∷ transfer_key
        ∷ s.fixed 6 times.frame_transfer_time
        ∷ received_key
        ∷ s.fixed 6 received
        ∷ cuts.parts.after
        ∷ []

    module _ (forward_fits : length (s.fixed 6 forward) < 32)
        (received_fits : length (s.fixed 6 received) < 32)
        (processing_fits : length (s.fixed 6 times.processing_time) < 32)
        (transfer_fits : length (s.fixed 6 times.frame_transfer_time) < 32) where
      supply : Supply (pieces input at span renderings) supplied
      supply =
          pieces-Supply input key at span cuts (s.fixed 6 forward) (s.fixed 6 received)
            (s.fixed 6 times.processing_time) (s.fixed 6 times.frame_transfer_time) forward_fits
            received_fits processing_fits transfer_fits

      result-IsStamped : IsStamped input received forward times result
      result-IsStamped = record {
        key = key;
        is_sent_key = is_sent_key;
        parts = cuts.parts;
        transfer_is = ap (d.sub received) (
            parse_double_span_lem input span.value_start span.value_end
            ∙ ap (λ v. s.strtod (take 63 v)) cuts.value_is);
        processing_is = refl;
        result_is = joined-concat (pieces input at span renderings) supplied supply;
      }

      length-result : length result ≡ stamped_len input at span renderings
      unfolding stamped_len pieces snprintf
      length-result =
          length-joined (pieces input at span renderings)
            (Supply-IsSourced (pieces input at span renderings) supplied supply)
          ∙ omega arith

      result_fits :
          stamped_len input at span renderings ≤ out_cap
          → (r : Stamped W) × ((append_all out 0 (pieces input at span renderings)
                >>= λ (end, filled).
                    some (record { ret = to_int end; out = filled; times = some times }))
              ≡ some r)
            × StampOutcome input received forward out out_cap r
      result_fits total =
          let size = length-result in
          let (filled, done, holds) =
            append_all_lem (pieces input at span renderings) out
              (Supply-IsSourced (pieces input at span renderings) supplied supply) (omega arith) in
          (
            record { ret = to_int (length result); out = filled; times = some times },
            rw done,
            stamped times result result-IsStamped (omega arith)
                (to_int_small (length result) (omega arith)) holds refl,
          )

    stamp_at-StampOutcome :
        (r : Stamped W) × (stamp_at input at span received forward out out_cap ≡ some r)
        × StampOutcome input received forward out out_cap r
    unfolding stamp_at snprintf
    stamp_at-StampOutcome = elim (Bool-cases (does_not_fit renderings)) [
      | inl long ↦ (
        record { ret = minus_one; out = out; times = some times },
        rw long,
        dropped (long_number times refl (ground arith)) refl refl,
      )
      | inr short ↦
          let forward_fits : length (s.fixed 6 forward) < 32 = ground arith in
          let received_fits : length (s.fixed 6 received) < 32 = ground arith in
          let processing_fits : length (s.fixed 6 times.processing_time) < 32 = ground arith in
          let transfer_fits : length (s.fixed 6 times.frame_transfer_time) < 32 = ground arith in
          elim (Bool-cases (ltb out_cap (stamped_len input at span renderings))) [
            | inl over ↦ (
              record { ret = minus_one; out = out; times = some times },
              rw (short, over),
              dropped
                  (long_result times result refl
                    (result-IsStamped forward_fits received_fits processing_fits transfer_fits)
                    (omega (
                      arith,
                      ltb→lt out_cap _ over,
                      length-result forward_fits received_fits processing_fits transfer_fits,
                    )))
                  refl refl,
            )
            | inr under ↦
                rw (short, under)
                  (result_fits forward_fits received_fits processing_fits transfer_fits
                    (ltb→le out_cap _ under))
          ]
    ]

  -- bridge_stamp_frame, on any text and any storage of at least out_cap bytes, out_cap being less than 2
  -- ^ 31, does not fault, and one of three things happens: the frame has no sent time and is copied; it
  -- is dropped with the storage as it was, because a number takes 32 bytes or more or the result exceeds
  -- out_cap; or the storage begins with the frame in which the sent time has its new name and the four
  -- new fields behind it.
  pub bridge_stamp_frame-StampOutcome :
      (input : Bytes) (received forward : W) (out : Bytes) (out_cap : ℕ)
      → out_cap ≤ length out
      → out_cap < 2 ^ 31
      → (r : Stamped W) × (bridge_stamp_frame input received forward out out_cap ≡ some r)
        × StampOutcome input received forward out out_cap r
  unfolding bridge_stamp_frame
  bridge_stamp_frame-StampOutcome input received forward out out_cap h small =
      let keys = find_sent_time_key-SentKeyFound input in
      elim (Option-cases (find_sent_time_key input)) [
        | inl absent ↦
            rw (absent, bridge_stamp_frame)
              (stamp_unchanged-StampOutcome input received forward out out_cap h small
                (rw absent at keys))
        | inr (k, found) ↦
            let (key, is_sent_key, ne, len_is, at_is) = rw found at keys in
            rw (found, bridge_stamp_frame, len_is)
              (stamp_at-StampOutcome input received forward out out_cap h small key is_sent_key
                k.key_start _ (find_value_span-Cuts key input k.key_start ne at_is))
      ]
