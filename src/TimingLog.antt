-- ===== src/TimingLog.antt =====
-- src/timing_log.cpp: the optional CSV file. `s_file` is `none` for the null pointer, or the bytes that
-- the open file holds, since every write goes to its end.
pub mod Rows
use imx8mp_pipe_line_setup.Prelude.{
  ℕ, Bool, Option, none, some, List, [], ◌∷◌, ◌++◌, ◌==◌, if◌then◌else◌, length, Bytes, codes,
}
use imx8mp_pipe_line_setup.Prelude.Int.{ℤ, pos, minus_one}
use imx8mp_pipe_line_setup.Double.{Double, Stdio}

abbrev pub LogFile : Type 0
LogFile = Option Bytes

abbrev pub header : Bytes
header =
    codes
      "wall_epoch_seconds,frame_transfer_time_ms,frame_transfer_time_corrected_ms,base_station_processing_time_ms\n"

-- `ftell(s_file) == 0` at the end of the file.
pub with_header : Bytes → Bytes
with_header content = if length content == 0 then header else content

-- The return value and `s_file` after the file has been opened. `fopen(path, "a")` gives what the file at a
-- path holds, nothing for a new one, or `none` for the null pointer.
pub open_log : Option Bytes → ℤ × LogFile
open_log none = (minus_one, none)
open_log (some content) = (pos 0, some (with_header content))

-- A path is `none` for the null pointer.
unfoldable pub timing_log_init : (Bytes → Option Bytes) → Option Bytes → LogFile → ℤ × LogFile
unfolding open_log with_header
timing_log_init fopen none file = (pos 0, file)
timing_log_init fopen (some []) file = (pos 0, file)
timing_log_init fopen (some (c ∷ path)) file = open_log (fopen (c ∷ path))

abbrev pub timing_log_close : LogFile → LogFile
timing_log_close file = none

module _ {W : Type 0} ⦃d : Double W⦄ ⦃s : Stdio W⦄ where
  -- `"%.6f,%.4f,%.4f,%.4f\n"`
  pub row : W → W → W → W → Bytes
  row wall_epoch_seconds frame_transfer_time frame_transfer_time_corrected processing_time =
      let ms = λ (w : W). s.fixed 4 (d.mul w (d.decimal 1000 0)) in
      s.fixed 6 wall_epoch_seconds
      ++ (codes ","
          ++ (ms frame_transfer_time
              ++ (codes ","
                  ++ (ms frame_transfer_time_corrected
                      ++ (codes "," ++ (ms processing_time ++ codes "\n"))))))

  unfoldable pub timing_log_record : W → W → W → W → LogFile → LogFile
  timing_log_record wall transfer corrected processing none = none
  timing_log_record wall transfer corrected processing (some content) =
      some (content ++ row wall transfer corrected processing)
