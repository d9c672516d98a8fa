-- ===== src/ClockOffset.antt =====
-- src/clock_offset.cpp: the rolling minimum of the frame transfer times.
pub mod Minimum
pub mod Window
use imx8mp_pipe_line_setup.Prelude.{ℕ, Bool, Option, none, some, List, [], ◌∷◌, ◌++◌, if◌then◌else◌}
use imx8mp_pipe_line_setup.Double.{Double}

-- A pair of `g_samples`: (this process's time, frame_transfer_time).
pub record Sample (W : Type 0) : Type 0 where
  pub first : W
  pub second : W

-- `g_samples`, oldest first.
abbrev pub Samples : Type 0 → Type 0
Samples W = List (Sample W)

abbrev pub clock_offset_reset : {W : Type 0} → Samples W → Samples W
clock_offset_reset samples = []

module _ {W : Type 0} ⦃d : Double W⦄ where
  abbrev pub window_seconds : W
  window_seconds = d.decimal 30 0

  -- `now - time > kWindowSeconds`
  abbrev pub is_stale : W → Sample W → Bool
  is_stale now sample = d.lt window_seconds (d.sub now sample.first)

  -- The loop that pops stale samples off the front.
  unfoldable pub drop_stale : W → Samples W → Samples W
  drop_stale now [] = []
  drop_stale now (sample ∷ samples) =
      if is_stale now sample then drop_stale now samples else sample ∷ samples

  -- The loop over all samples.
  unfoldable pub rolling_min : W → Samples W → W
  rolling_min least [] = least
  rolling_min least (sample ∷ samples) =
      rolling_min (if d.lt sample.second least then sample.second else least) samples

  -- The samples after a call, and its result; `front()` of an empty queue is a fault, `none`.
  unfoldable pub corrected : W → Samples W → Option (W × Samples W)
  unfolding rolling_min
  corrected frame_transfer_time [] = none
  corrected frame_transfer_time (front ∷ samples) =
      some (d.sub frame_transfer_time (rolling_min front.second (front ∷ samples)), front ∷ samples)

  unfoldable pub clock_offset_correct : W → W → Samples W → Option (W × Samples W)
  unfolding corrected drop_stale
  clock_offset_correct frame_transfer_time now samples =
      corrected frame_transfer_time
        (drop_stale now (samples ++ (record { first = now; second = frame_transfer_time } ∷ [])))
