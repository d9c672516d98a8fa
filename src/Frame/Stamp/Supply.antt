-- ===== src/Frame/Stamp/Supply.antt =====
-- The key that `bridge_stamp_frame` finds, and the pieces of its result with the bytes that they hold.
use imx8mp_pipe_line_setup.Prelude.{
  ℕ, ◌<◌, ◌≡◌, refl, ap, ◌∙◌, inl, inr, Option, none, some, [], ◌∷◌, arith, Option-cases, length,
  drop, Bytes, length-take, length-drop, take_all,
}
use imx8mp_pipe_line_setup.Memory.{snprintf, snprintf_stored}
use imx8mp_pipe_line_setup.Memory.Pieces.{Supply, Supplies, Supplies-whole}
use imx8mp_pipe_line_setup.Frame.Search.{find_substr, find_substr-IsFirst}
use imx8mp_pipe_line_setup.Frame.Span.{Span}
use imx8mp_pipe_line_setup.Frame.Keyed.{Cuts}
use imx8mp_pipe_line_setup.Frame.Extract.{KeyAt, ntp_key, timestamp_key, find_sent_time_key}
use imx8mp_pipe_line_setup.Frame.Stamp.Outcome.{IsSentKey, by_ntp, by_timestamp, NoSentKey}
use imx8mp_pipe_line_setup.Frame.Stamp.{
  sent_key, new_ntp_key, processing_key, transfer_key, received_key, pieces,
}

-- What the search for the sent time's key finds.
abbrev pub SentKeyFound : Bytes → Option KeyAt → Type 0
SentKeyFound input none = NoSentKey input
SentKeyFound input (some k) =
    (key : Bytes) × IsSentKey input key
    × (0 < length key)
    × (k.key_len ≡ length key)
    × (find_substr input key ≡ some k.key_start)

pub find_sent_time_key-SentKeyFound :
    (input : Bytes) → SentKeyFound input (find_sent_time_key input)
unfolding find_sent_time_key
find_sent_time_key-SentKeyFound input = elim (Option-cases (find_substr input ntp_key)) [
  | inr (at, found) ↦
      rw (found, find_sent_time_key) (ntp_key, by_ntp refl, omega arith, refl, found)
  | inl no_ntp ↦
      let absent = rw no_ntp at (find_substr-IsFirst input ntp_key (omega arith)) in
      elim (Option-cases (find_substr input timestamp_key)) [
        | inr (at, found) ↦
            rw (no_ntp, found, find_sent_time_key)
              (timestamp_key, by_timestamp refl absent, omega arith, refl, found)
        | inl no_timestamp ↦
            rw (no_ntp, no_timestamp, find_sent_time_key)
              (record {
                no_ntp = absent;
                no_timestamp =
                    rw no_timestamp at (find_substr-IsFirst input timestamp_key (omega arith));
              })
      ]
]

pub pieces-Supply :
    (input key : Bytes) (at : ℕ) (span : Span) (cuts : Cuts key input at span) (f r p t : Bytes)
    → length f < 32
    → length r < 32
    → length p < 32
    → length t < 32
    → Supply
        (pieces input at span (record {
          forward = snprintf 32 f;
          received = snprintf 32 r;
          processing = snprintf 32 p;
          transfer = snprintf 32 t;
        }))
        (cuts.parts.before ∷ sent_key ∷ cuts.parts.value ∷ new_ntp_key ∷ f ∷ processing_key ∷ p
          ∷ transfer_key ∷ t ∷ received_key ∷ r ∷ cuts.parts.after ∷ [])
unfolding pieces snprintf
pieces-Supply input key at span cuts f r p t hf hr hp ht = (
  record {
    taken = cuts.before_is;
    sourced = omega (arith, cuts.at_is, ap length cuts.before_is, length-take at input);
  },
  (
    Supplies-whole sent_key,
    (
      record {
        taken = cuts.value_is;
        sourced = omega (arith, cuts.inside, length-drop span.value_start input);
      },
      (
        Supplies-whole new_ntp_key,
        (
          printed f hf,
          (
            Supplies-whole processing_key,
            (
              printed p hp,
              (
                Supplies-whole transfer_key,
                (
                  printed t ht,
                  (
                    Supplies-whole received_key,
                    (
                      printed r hr,
                      (
                        record {
                          taken =
                              take_all _ (drop span.value_end input)
                                (omega (arith, length-drop span.value_end input))
                              ∙ cuts.end_is;
                          sourced = omega (arith, length-drop span.value_end input);
                        },
                        tt,
                      ),
                    ),
                  ),
                ),
              ),
            ),
          ),
        ),
      ),
    ),
  ),
)
  where
    printed :
        (bytes : Bytes)
        → length bytes < 32
        → Supplies ((snprintf 32 bytes).stored, length bytes) bytes
    printed bytes h =
        let stored = snprintf_stored 32 bytes h in record { taken = stored.0; sourced = stored.1 }
