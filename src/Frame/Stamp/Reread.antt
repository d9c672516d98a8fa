-- ===== src/Frame/Stamp/Reread.antt =====
-- What a reader finds as the sent time of a stamped frame.
use mathlib.Core.Path.{subst}
use imx8mp_pipe_line_setup.Prelude.{
  ℕ, ◌+◌, ◌^◌, ◌≤◌, ◌<◌, ◌≡◌, refl, sym, ap, ◌∙◌, inl, inr, some, [], ◌∷◌, ◌++◌, arith,
  Option-cases, length, take, Bytes, some_inj,
}
use imx8mp_pipe_line_setup.Prelude.Int.{pos, pos_part}
use imx8mp_pipe_line_setup.Memory.Pieces.{concat}
use imx8mp_pipe_line_setup.Double.{Double, Stdio}
use imx8mp_pipe_line_setup.Frame.Search.{OccursAt, find_substr, find_substr-IsFirst}
use imx8mp_pipe_line_setup.Frame.Span.{is_number_char, AllPass}
use imx8mp_pipe_line_setup.Frame.Keyed.{IsKeyed}
use imx8mp_pipe_line_setup.Frame.Keyed.Unique.{OccursAt-prefix, IsKeyed-OccursAt}
use imx8mp_pipe_line_setup.Frame.Extract.{
  ntp_key, find_sent_time_key, bridge_extract_sent_time, extract_double_field,
}
use imx8mp_pipe_line_setup.Frame.Stamp.{
  processing_key, transfer_key, received_key, Times, Stamped, bridge_stamp_frame,
}
use imx8mp_pipe_line_setup.Frame.Stamp.Outcome.{
  IsSentKey, by_ntp, by_timestamp, IsStamped, StampOutcome, copied, dropped, stamped,
}
use imx8mp_pipe_line_setup.Frame.Stamp.Layout.{bridge_stamp_frame-StampOutcome}
use imx8mp_pipe_line_setup.Frame.Extract.Read.{IsKeyed-read}
use imx8mp_pipe_line_setup.Frame.Stamp.FirstKey.{text-IsKeyed, text_value}

module _ {W : Type 0} ⦃s : Stdio W⦄ where
  -- Where "ntp_time" stands, it is the sent time.
  sent_time-ntp :
      (input : Bytes) (i : ℕ)
      → OccursAt ntp_key input i
      → bridge_extract_sent_time {W = W} input ≡ extract_double_field input ntp_key
  unfolding bridge_extract_sent_time extract_double_field find_sent_time_key
  sent_time-ntp input i o = elim (Option-cases (find_substr input ntp_key)) [
    | inl absent ↦ absurd (rw absent at (find_substr-IsFirst input ntp_key (omega arith)) i o)
    | inr (at, found) ↦ rw (found, find_sent_time_key) refl
  ]

module _ {W : Type 0} ⦃d : Double W⦄ ⦃s : Stdio W⦄ (input : Bytes) (received forward : W)
    (numeric : AllPass is_number_char (s.fixed 6 forward))
    (some_digit : 0 < length (s.fixed 6 forward)) where
  -- No key lies in the part of the frame that is copied to the front.
  no_earlier :
      (key : Bytes) (is_sent_key : IsSentKey input key) (parts : IsKeyed key input) (behind : Bytes)
      (i : ℕ)
      → i + 11 ≤ length parts.before
      → ¬ OccursAt ntp_key (parts.before ++ behind) i
  no_earlier key is_sent_key parts behind i h o =
      let before_all : OccursAt ntp_key input i =
        subst (λ t. OccursAt ntp_key t i) (sym parts.text_is)
          (OccursAt-prefix ntp_key parts.before behind _ i h o) in
      elim is_sent_key [
        | by_ntp key_is ↦
            parts.first i (omega arith) (subst (λ k. OccursAt k input i) (sym key_is) before_all)
        | by_timestamp key_is never ↦ never i before_all
      ]

  IsStamped-reread :
      (times : Times W) (result : Bytes)
      → IsStamped input received forward times result
      → bridge_extract_sent_time result ≡ some (s.strtod (take 63 (s.fixed 6 forward)))
  IsStamped-reread times result is_stamped =
      let parts = is_stamped.parts in
      let after : Bytes = concat (
        processing_key
        ∷ s.fixed 6 times.processing_time
        ∷ transfer_key
        ∷ s.fixed 6 times.frame_transfer_time
        ∷ received_key
        ∷ s.fixed 6 received
        ∷ parts.after
        ∷ []) in
      let keyed =
        text-IsKeyed parts.before parts.value (s.fixed 6 forward ++ after) parts.value_passes
          (s.fixed 6 forward) after refl numeric some_digit refl
          (no_earlier is_stamped.key is_stamped.is_sent_key parts _) in
      let value_is =
        text_value parts.before parts.value (s.fixed 6 forward ++ after) parts.value_passes
          (s.fixed 6 forward) after refl numeric some_digit refl
          (no_earlier is_stamped.key is_stamped.is_sent_key parts _) in
      ap bridge_extract_sent_time is_stamped.result_is
      ∙ sent_time-ntp _ _ (IsKeyed-OccursAt ntp_key _ keyed)
      ∙ IsKeyed-read ntp_key _ keyed (omega arith) (omega (arith, ap length value_is))
      ∙ ap (λ v. some (s.strtod (take 63 v))) value_is

  -- The frame that bridge_stamp_frame returns, if it has set the times and returns a length, is itself
  -- read by bridge_extract_sent_time: the sent time there is the number that strtod makes of the first 63
  -- bytes of the forward time's rendering, so the frame can be bridged once more. The rendering is one or
  -- more number characters, out_cap is within the storage and less than 2 ^ 31.
  pub bridge_stamp_frame-reread :
      (out : Bytes) (out_cap : ℕ) (r : Stamped W) (times : Times W) (n : ℕ)
      → out_cap ≤ length out
      → out_cap < 2 ^ 31
      → bridge_stamp_frame input received forward out out_cap ≡ some r
      → r.ret ≡ pos n
      → r.times ≡ some times
      → bridge_extract_sent_time (take n r.out) ≡ some (s.strtod (take 63 (s.fixed 6 forward)))
  bridge_stamp_frame-reread out out_cap r times n room small ran ret_is times_are =
      let (r', ran', outcome) =
        bridge_stamp_frame-StampOutcome input received forward out out_cap room small in
      let same : r' ≡ r = some_inj (sym ran' ∙ ran) in
      elim (subst (StampOutcome input received forward out out_cap) same outcome) [
        | copied none_found fits ret holds no_times ↦ absurd (cc)
        | dropped why ret kept ↦ absurd (cc)
        | stamped times' result is_stamped fits ret holds times_is ↦
            ap bridge_extract_sent_time
              (ap (λ k. take k r.out) (ap pos_part (sym ret_is ∙ ret)) ∙ holds.text_is)
            ∙ IsStamped-reread times' result is_stamped
      ]
