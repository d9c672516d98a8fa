-- ===== src/Gpio.antt =====
-- src/gpio_toggle.cpp: the timing marker on a GPIO line, over sysfs.
pub mod Marker
use imx8mp_pipe_line_setup.Prelude.{
  ℕ, Bool, true, false, not, List, [], ◌∷◌, ◌++◌, if◌then◌else◌, Bytes, codes,
}
use imx8mp_pipe_line_setup.Prelude.Int.{ℤ, pos, minus_one}

-- One attempt to write a text to a file of sysfs, and whether the file was opened and took all of it; an
-- attempt that was not taken has written nothing, or not the whole text.
pub record Write : Type 0 where
  pub path : Bytes
  pub text : Bytes
  pub taken : Bool

-- The kernel's side: whether a file is there, and whether a text is taken by the file at a path, after
-- the attempts made so far.
pub record Sysfs : Type 0 where
  pub exists : List Write → Bytes → Bool
  pub accepts : List Write → Bytes → Bytes → Bool

-- `g_ready`, and the attempts so far, the oldest first.
pub record Gpio : Type 0 where
  pub ready : Bool
  pub writes : List Write

abbrev pub export_path : Bytes
export_path = codes "/sys/class/gpio/export"

abbrev pub direction_path : Bytes
direction_path = codes "/sys/class/gpio/gpio5/direction"

abbrev pub value_path : Bytes
value_path = codes "/sys/class/gpio/gpio5/value"

module _ (sysfs : Sysfs) where
  -- Whether the write succeeded, and the state afterwards.
  pub write_sysfs : Bytes → Bytes → Gpio → Bool × Gpio
  write_sysfs path text g =
      let taken = sysfs.accepts g.writes path text in
      let attempt : Write = record { path = path; text = text; taken = taken } in
      (taken, record g { writes = g.writes ++ (attempt ∷ []) })

  -- The export, whose failure is not an error.
  pub export_line : Gpio → Gpio
  unfolding write_sysfs
  export_line g =
      if sysfs.exists g.writes value_path then g else (write_sysfs export_path (codes "5") g).1

  pub drive_low : Gpio → ℤ × Gpio
  unfolding write_sysfs
  drive_low g =
      let (ok, g') = write_sysfs value_path (codes "0") g in
      if ok then (pos 0, record g' { ready = true }) else (minus_one, g')

  unfoldable pub gpio_toggle_init : Gpio → ℤ × Gpio
  unfolding write_sysfs export_line drive_low
  gpio_toggle_init g =
      let (ok, g') = write_sysfs direction_path (codes "out") (export_line g) in
      if ok then drive_low g' else (minus_one, g')

  unfoldable pub gpio_toggle_set : Bool → Gpio → Gpio
  unfolding write_sysfs
  gpio_toggle_set state g =
      if not g.ready
      then g
      else (write_sysfs value_path (if state then codes "1" else codes "0") g).1
