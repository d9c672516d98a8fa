-- ===== src/Frame/Stamp/Outcome.antt =====
-- What a stamped frame holds, and when a frame is copied or dropped instead.
use imx8mp_pipe_line_setup.Prelude.{
  ℕ, ◌≤◌, ◌<◌, ◌≡◌, ◌⊎◌, Option, none, some, List, [], ◌∷◌, length, take, Bytes,
}
use imx8mp_pipe_line_setup.Prelude.Int.{pos, minus_one}
use imx8mp_pipe_line_setup.Memory.Splice.{Holds}
use imx8mp_pipe_line_setup.Memory.Pieces.{concat}
use imx8mp_pipe_line_setup.Double.{Double, Stdio}
use imx8mp_pipe_line_setup.Frame.Search.{OccursAt}
use imx8mp_pipe_line_setup.Frame.Keyed.{IsKeyed}
use imx8mp_pipe_line_setup.Frame.Extract.{ntp_key, timestamp_key}
use imx8mp_pipe_line_setup.Frame.Stamp.{
  sent_key, new_ntp_key, processing_key, transfer_key, received_key, Times, Stamped,
}

-- The key of the sent time: "ntp_time", or "timestamp" in a frame that has no "ntp_time".
pub data IsSentKey (input : Bytes) : Bytes → Type 0 where
  by_ntp : {key : Bytes} → key ≡ ntp_key → IsSentKey input key
  by_timestamp :
      {key : Bytes}
      → key ≡ timestamp_key
      → ((i : ℕ) → ¬ OccursAt ntp_key input i)
      → IsSentKey input key

pub record NoSentKey (input : Bytes) : Type 0 where
  pub no_ntp : (i : ℕ) → ¬ OccursAt ntp_key input i
  pub no_timestamp : (i : ℕ) → ¬ OccursAt timestamp_key input i

module _ {W : Type 0} ⦃d : Double W⦄ ⦃s : Stdio W⦄ where
  -- The pieces of a stamped frame, in order.
  abbrev pub stamped_parts : (key input : Bytes) → IsKeyed key input → W → W → Times W → List Bytes
  stamped_parts key input parts received forward times =
      parts.before
      ∷ sent_key
      ∷ parts.value
      ∷ new_ntp_key
      ∷ s.fixed 6 forward
      ∷ processing_key
      ∷ s.fixed 6 times.processing_time
      ∷ transfer_key
      ∷ s.fixed 6 times.frame_transfer_time
      ∷ received_key
      ∷ s.fixed 6 received
      ∷ parts.after
      ∷ []

  -- The result is the frame with its sent time renamed and the four new fields behind it.
  pub record IsStamped (input : Bytes) (received forward : W) (times : Times W) (result : Bytes)
      : Type 0 where
    pub key : Bytes
    pub is_sent_key : IsSentKey input key
    pub parts : IsKeyed key input
    pub transfer_is : times.frame_transfer_time ≡ d.sub received (s.strtod (take 63 parts.value))
    pub processing_is : times.processing_time ≡ d.sub forward received
    pub result_is : result ≡ concat (stamped_parts key input parts received forward times)

  -- A frame is dropped if a number's rendering has 32 bytes or more, or the result exceeds `out_cap`.
  pub data StampFails (input : Bytes) (received forward : W) (out_cap : ℕ)
      : Option (Times W) → Type 0 where
    long_copy :
        {o : Option (Times W)}
        → o ≡ none
        → NoSentKey input
        → out_cap < length input
        → StampFails input received forward out_cap o
    long_number :
        {o : Option (Times W)} (t : Times W)
        → o ≡ some t
        → (32 ≤ length (s.fixed 6 forward))
          ⊎ ((32 ≤ length (s.fixed 6 received))
              ⊎ ((32 ≤ length (s.fixed 6 t.processing_time))
                  ⊎ (32 ≤ length (s.fixed 6 t.frame_transfer_time))))
        → StampFails input received forward out_cap o
    long_result :
        {o : Option (Times W)} (t : Times W) (result : Bytes)
        → o ≡ some t
        → IsStamped input received forward t result
        → out_cap < length result
        → StampFails input received forward out_cap o

  pub data StampOutcome (input : Bytes) (received forward : W) (out : Bytes) (out_cap : ℕ)
      (r : Stamped W) : Type 0 where
    copied :
        NoSentKey input
        → length input ≤ out_cap
        → r.ret ≡ pos (length input)
        → Holds r.out input (length out)
        → r.times ≡ none
        → StampOutcome input received forward out out_cap r
    dropped :
        StampFails input received forward out_cap r.times
        → r.ret ≡ minus_one
        → r.out ≡ out
        → StampOutcome input received forward out out_cap r
    stamped :
        (times : Times W) (result : Bytes)
        → IsStamped input received forward times result
        → length result ≤ out_cap
        → r.ret ≡ pos (length result)
        → Holds r.out result (length out)
        → r.times ≡ some times
        → StampOutcome input received forward out out_cap r
