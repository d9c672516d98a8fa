-- ===== src/Frame/Stamp.antt =====
-- `bridge_stamp_frame` of src/frame_bridge.cpp.
pub mod Outcome
pub mod Supply
pub mod Layout
pub mod Plain
pub mod FirstKey
pub mod Reread
use imx8mp_pipe_line_setup.Prelude.{
  ℕ, ◌+◌, ◌-◌, Bool, ◌||◌, Option, none, some, List, [], ◌∷◌, ltb, if◌then◌else◌, length, drop,
  Bytes, codes, ◌>>=◌,
}
use imx8mp_pipe_line_setup.Prelude.Int.{ℤ, minus_one, to_int}
use imx8mp_pipe_line_setup.Memory.{memcpy, Printed, snprintf, did_not_fit, size_of}
use imx8mp_pipe_line_setup.Memory.Pieces.{Piece, append_all}
use imx8mp_pipe_line_setup.Double.{Double, Stdio}
use imx8mp_pipe_line_setup.Frame.Span.{Span, find_value_span, parse_double_span}
use imx8mp_pipe_line_setup.Frame.Extract.{KeyAt, find_sent_time_key}

abbrev pub sent_key : Bytes
sent_key = codes "\"controller_sent_ntp_time\":"

abbrev pub new_ntp_key : Bytes
new_ntp_key = codes ",\"ntp_time\":"

abbrev pub processing_key : Bytes
processing_key = codes ",\"base_station_processing_time\":"

abbrev pub transfer_key : Bytes
transfer_key = codes ",\"frame_transfer_time\":"

abbrev pub received_key : Bytes
received_key = codes ",\"controller_to_base_station_received_ntp_time\":"

-- What is written through `out_frame_transfer_time` and `out_processing_time`.
pub record Times (W : Type 0) : Type 0 where
  pub frame_transfer_time : W
  pub processing_time : W

-- The return value, the storage of `out` afterwards, and the times, if they were written.
pub record Stamped (W : Type 0) : Type 0 where
  pub ret : ℤ
  pub out : Bytes
  pub times : Option (Times W)

-- The frame with no sent time: a copy.
pub stamp_unchanged : {W : Type 0} → Bytes → Bytes → ℕ → Option (Stamped W)
stamp_unchanged input out out_cap =
    if ltb out_cap (length input)
    then some (record { ret = minus_one; out = out; times = none })
    else (do
      copied ← memcpy out 0 input (length input)
      some (record { ret = to_int (length input); out = copied; times = none }))

-- The four renderings, each in an array of 32 bytes.
pub record Renderings : Type 0 where
  pub forward : Printed
  pub received : Printed
  pub processing : Printed
  pub transfer : Printed

abbrev pub does_not_fit : Renderings → Bool
does_not_fit r =
    did_not_fit r.forward.len 32
    || (did_not_fit r.received.len 32
        || (did_not_fit r.processing.len 32 || did_not_fit r.transfer.len 32))

-- The sources and lengths of the twelve `APPEND` lines.
pub pieces : Bytes → ℕ → Span → Renderings → List Piece
pieces input prefix_len span r =
    (input, prefix_len)
    ∷ (sent_key, length sent_key)
    ∷ (drop span.value_start input, span.value_end - span.value_start)
    ∷ (new_ntp_key, length new_ntp_key)
    ∷ (r.forward.stored, size_of r.forward.len)
    ∷ (processing_key, length processing_key)
    ∷ (r.processing.stored, size_of r.processing.len)
    ∷ (transfer_key, length transfer_key)
    ∷ (r.transfer.stored, size_of r.transfer.len)
    ∷ (received_key, length received_key)
    ∷ (r.received.stored, size_of r.received.len)
    ∷ (drop span.value_end input, length input - span.value_end)
    ∷ []

-- `total`.
pub stamped_len : Bytes → ℕ → Span → Renderings → ℕ
stamped_len input prefix_len span r =
    prefix_len
    + length sent_key
    + (span.value_end - span.value_start)
    + length new_ntp_key
    + size_of r.forward.len
    + length processing_key
    + size_of r.processing.len
    + length transfer_key
    + size_of r.transfer.len
    + length received_key
    + size_of r.received.len
    + (length input - span.value_end)

module _ {W : Type 0} ⦃d : Double W⦄ ⦃s : Stdio W⦄ where
  -- From the span of the sent time on.
  pub stamp_at : Bytes → ℕ → Span → W → W → Bytes → ℕ → Option (Stamped W)
  stamp_at input prefix_len span received_ntp_time forward_ntp_time out out_cap =
      let sent_ntp_time = parse_double_span input span.value_start span.value_end in
      let frame_transfer_time = d.sub received_ntp_time sent_ntp_time in
      let processing_time = d.sub forward_ntp_time received_ntp_time in
      let times : Option (Times W) =
        some (record {
          frame_transfer_time = frame_transfer_time;
          processing_time = processing_time;
        }) in
      let r : Renderings = record {
        forward = snprintf 32 (s.fixed 6 forward_ntp_time);
        received = snprintf 32 (s.fixed 6 received_ntp_time);
        processing = snprintf 32 (s.fixed 6 processing_time);
        transfer = snprintf 32 (s.fixed 6 frame_transfer_time);
      } in
      if does_not_fit r
      then some (record { ret = minus_one; out = out; times = times })
      else if ltb out_cap (stamped_len input prefix_len span r)
      then some (record { ret = minus_one; out = out; times = times })
      else (do
        (pos, filled) ← append_all out 0 (pieces input prefix_len span r)
        some (record { ret = to_int pos; out = filled; times = times }))

  unfoldable pub bridge_stamp_frame : Bytes → W → W → Bytes → ℕ → Option (Stamped W)
  unfolding stamp_unchanged stamp_at pieces stamped_len
  bridge_stamp_frame input received_ntp_time forward_ntp_time out out_cap =
      elim (find_sent_time_key input) [
        | none ↦ stamp_unchanged input out out_cap
        | some key ↦
            stamp_at input key.key_start (find_value_span input (key.key_start + key.key_len))
              received_ntp_time forward_ntp_time out out_cap
      ]
