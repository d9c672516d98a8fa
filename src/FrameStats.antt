-- ===== src/FrameStats.antt =====
-- src/frame_stats.cpp: minimum, mean and maximum of three timings over windows of a hundred frames.
pub mod Values
pub mod Windows
use imx8mp_pipe_line_setup.Prelude.{
  ℕ, ◌+◌, Bool, Option, none, some, List, ◌==◌, leb, if◌then◌else◌,
}
use imx8mp_pipe_line_setup.Prelude.Int.{pos}
use imx8mp_pipe_line_setup.Double.{Double}

abbrev pub window_size : ℕ
window_size = 100

-- `running_stat_t`.
pub record RunningStat (W : Type 0) : Type 0 where
  pub sum : W
  pub least : W
  pub greatest : W

-- `s_count`, `s_transfer`, `s_processing` and `s_total`.
pub record Stats (W : Type 0) : Type 0 where
  pub count : ℕ
  pub transfer : RunningStat W
  pub processing : RunningStat W
  pub total : RunningStat W

-- The three numbers of a printed line, in milliseconds.
pub record Line (W : Type 0) : Type 0 where
  pub min_ms : W
  pub avg_ms : W
  pub max_ms : W

pub record Report (W : Type 0) : Type 0 where
  pub frames : ℕ
  pub transfer_line : Line W
  pub processing_line : Line W
  pub total_line : Line W

module _ {W : Type 0} ⦃d : Double W⦄ where
  pub stat_reset : RunningStat W → RunningStat W
  stat_reset s = record { sum = d.decimal 0 0; least = d.dbl_max; greatest = d.neg d.dbl_max }

  pub stat_add : RunningStat W → W → RunningStat W
  stat_add s value = record {
    sum = d.add s.sum value;
    least = if d.lt value s.least then value else s.least;
    greatest = if d.lt s.greatest value then value else s.greatest;
  }

  pub stat_print : RunningStat W → ℕ → Line W
  stat_print s count = record {
    min_ms = d.mul s.least (d.decimal 1000 0);
    avg_ms = d.mul (d.div s.sum (d.of_int (pos count))) (d.decimal 1000 0);
    max_ms = d.mul s.greatest (d.decimal 1000 0);
  }

  -- The resets before the first frame of a window.
  pub begin_window : Stats W → Stats W
  unfolding stat_reset
  begin_window s =
      if s.count == 0
      then record s {
        transfer = stat_reset s.transfer;
        processing = stat_reset s.processing;
        total = stat_reset s.total;
      }
      else s

  pub add_frame : W → W → Stats W → Stats W
  unfolding stat_add
  add_frame frame_transfer_time processing_time s = record {
    count = s.count + 1;
    transfer = stat_add s.transfer frame_transfer_time;
    processing = stat_add s.processing processing_time;
    total = stat_add s.total (d.add frame_transfer_time processing_time);
  }

  -- The report at the end of a window.
  pub end_window : Stats W → Stats W × Option (Report W)
  unfolding stat_print
  end_window s =
      if leb window_size s.count
      then (
        record s { count = 0 },
        some (record {
          frames = s.count;
          transfer_line = stat_print s.transfer s.count;
          processing_line = stat_print s.processing s.count;
          total_line = stat_print s.total s.count;
        }),
      )
      else (s, none)

  unfoldable pub frame_stats_record : W → W → Stats W → Stats W × Option (Report W)
  unfolding begin_window add_frame end_window
  frame_stats_record frame_transfer_time processing_time s =
      end_window (add_frame frame_transfer_time processing_time (begin_window s))
