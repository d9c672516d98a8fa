-- ===== src/Tests/Records.antt =====
-- src/clock_offset.cpp, src/frame_stats.cpp, src/timing_log.cpp and src/gpio_toggle.cpp on concrete values.
use imx8mp_pipe_line_setup.Prelude.{
  ◌≡◌, refl, ◌⊎◌, Bool, true, false, Option, none, some, [], ◌∷◌, ◌++◌, arith, All, Bytes, codes,
}
use imx8mp_pipe_line_setup.Prelude.Int.{ℤ, pos, ◌-ℤ◌}
use imx8mp_pipe_line_setup.Double.{IsNumber, ◌≼◌}
use imx8mp_pipe_line_setup.Double.Micro.{micro_double, Micro-IsOrdered}
use imx8mp_pipe_line_setup.Double.Printing.{micro_stdio}
use imx8mp_pipe_line_setup.ClockOffset.{Samples, clock_offset_correct}
use imx8mp_pipe_line_setup.ClockOffset.Minimum.{Among, clock_offset_correct-least}
use imx8mp_pipe_line_setup.ClockOffset.Window.{fresh, clock_offset_correct-fresh}
use imx8mp_pipe_line_setup.FrameStats.{frame_stats_record}
use imx8mp_pipe_line_setup.FrameStats.Windows.{Frame, IsOver, Recorded, frame_stats_record-Recorded}
use imx8mp_pipe_line_setup.TimingLog.{timing_log_init}
use imx8mp_pipe_line_setup.TimingLog.Rows.{
  BeginsWith, Entry, record_all, rows, timing_log_restart, timing_log_disabled,
}
use imx8mp_pipe_line_setup.Gpio.{Gpio, value_path, gpio_toggle_init, gpio_toggle_set}
use imx8mp_pipe_line_setup.Gpio.Marker.{
  Started, tried, start, gpio_toggle_init-start, gpio_toggle_set-pulse,
}
use imx8mp_pipe_line_setup.Tests.{sysfs, stats}

-- One sample that is stale at forty seconds, and one that is not.
abbrev samples : Samples ℤ
samples =
    record { first = pos 1_000_000; second = pos 200_000 }
    ∷ record { first = pos 30_000_000; second = pos 300_000 }
    ∷ []

clock_offset_correct-least_example :
    (kept : Samples ℤ) × (least : ℤ) × let window =
        kept ++ (record { first = pos 40_000_000; second = pos 500_000 } ∷ []) in
      (clock_offset_correct (pos 500_000) (pos 40_000_000) samples
        ≡ some (pos 500_000 -ℤ least, window))
      × Among least window
      × All (λ s. least ≼ s.second) window
      × All (λ s. IsNumber s.second) window
      × (least ≼ pos 500_000)
      × (pos 500_000 -ℤ pos 500_000 ≼ pos 500_000 -ℤ least)
clock_offset_correct-least_example =
    clock_offset_correct-least Micro-IsOrdered (pos 500_000) (pos 40_000_000) samples refl
      (refl, (refl, tt))

clock_offset_correct-fresh_example :
    (result : ℤ) × (clock_offset_correct (pos 500_000) (pos 40_000_000) samples
      ≡ some (
        result,
        fresh
            (pos 40_000_000)
            (samples ++ (record { first = pos 40_000_000; second = pos 500_000 } ∷ [])),
      ))
unfolding ◌-ℤ◌
clock_offset_correct-fresh_example =
    clock_offset_correct-fresh Micro-IsOrdered (pos 500_000) (pos 40_000_000) samples
      ((refl, (refl, tt)), ((refl, tt), (tt, tt))) (refl, (refl, (refl, tt)))

abbrev new_frame : Frame ℤ
new_frame = record { frame_transfer_time = pos 300_000; processing_time = pos 2_000 }

stats-IsOver : IsOver [] stats
stats-IsOver = record {
  count_is = refl;
  short = omega arith;
  transfer_is = λ h. absurd (omega arith);
  processing_is = λ h. absurd (omega arith);
  total_is = λ h. absurd (omega arith);
}

frame_stats_record-Recorded_example :
    Recorded ([] ++ (new_frame ∷ [])) (frame_stats_record (pos 300_000) (pos 2_000) stats)
frame_stats_record-Recorded_example =
    frame_stats_record-Recorded Micro-IsOrdered [] new_frame stats stats-IsOver

abbrev file_system : Bytes → Option Bytes
file_system path = some []

abbrev entry : Entry ℤ
entry = record {
  wall_epoch_seconds = pos 40_000_000;
  frame_transfer_time = pos 300_000;
  frame_transfer_time_corrected = pos 1_000;
  base_station_processing_time = pos 2_000;
}

-- A file system on which nothing opens.
abbrev read_only : Bytes → Option Bytes
read_only path = none

timing_log_restart_example :
    (base : Bytes) × BeginsWith [] base
    × let left = base ++ rows (entry ∷ []) in
      (record_all (entry ∷ []) (timing_log_init file_system (some (codes "log.csv")) none).1
        ≡ some left)
      × (record_all
            (entry ∷ entry ∷ [])
            (timing_log_init (λ _. some left) (some (codes "log.csv")) none).1
          ≡ some (left ++ rows (entry ∷ entry ∷ [])))
timing_log_restart_example =
    timing_log_restart file_system (codes "log.csv") [] (entry ∷ []) (entry ∷ entry ∷ []) (λ e. cc)
      refl

timing_log_disabled_example :
    record_all (entry ∷ []) (timing_log_init read_only (some (codes "log.csv")) none).1 ≡ none
timing_log_disabled_example =
    timing_log_disabled read_only (some (codes "log.csv")) (entry ∷ []) (λ p e ne. refl)

gpio_toggle_init-start_example :
    let (ret, g) = gpio_toggle_init sysfs start in
    Started sysfs ret g × (g.ready ≡ false → (state : Bool) → gpio_toggle_set sysfs state g ≡ g)
gpio_toggle_init-start_example = gpio_toggle_init-start sysfs

abbrev ready : Gpio
ready = record { ready = true; writes = [] }

gpio_toggle_set-pulse_example :
    let g' = gpio_toggle_set sysfs false (gpio_toggle_set sysfs true ready) in
    ((ready.ready ≡ true)
      × (g' ≡ record ready {
        writes = tried value_path (codes "1") true ∷ tried value_path (codes "0") true ∷ [];
      }))
    ⊎ ((ready.ready ≡ false) × (g' ≡ ready))
gpio_toggle_set-pulse_example = gpio_toggle_set-pulse sysfs ready
