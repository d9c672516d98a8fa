-- ===== src/Gpio/Marker.antt =====
-- When the marker is driven.
use imx8mp_pipe_line_setup.Prelude.{
  ◌≡◌, refl, Bool, true, false, inl, inr, List, [], ◌∷◌, ◌++◌, ◌⊎◌, Bytes, codes, append_assoc,
  Bool-cases,
}
use imx8mp_pipe_line_setup.Prelude.Int.{ℤ, pos, minus_one}
use imx8mp_pipe_line_setup.Gpio.{
  Write, Sysfs, Gpio, export_path, direction_path, value_path, write_sysfs, export_line, drive_low,
  gpio_toggle_init, gpio_toggle_set,
}

abbrev pub start : Gpio
start = record { ready = false; writes = [] }

-- An attempt, and what came of it.
abbrev pub tried : Bytes → Bytes → Bool → Write
tried path text taken = record { path = path; text = text; taken = taken }

-- What has been tried before the direction: nothing where the line is exported already, else one attempt
-- to export it, taken or not.
pub data Exported (sysfs : Sysfs) : List Write → Type 0 where
  already : {ws : List Write} → sysfs.exists [] value_path ≡ true → ws ≡ [] → Exported sysfs ws
  attempted :
      {ws : List Write}
      → sysfs.exists [] value_path ≡ false
      → ws ≡ tried export_path (codes "5") (sysfs.accepts [] export_path (codes "5")) ∷ []
      → Exported sysfs ws

-- The set-up of the marker from the start: all that was tried, and what the kernel took of it.
pub data Started (sysfs : Sysfs) (ret : ℤ) (g : Gpio) : Type 0 where
  driven_low :
      (before : List Write)
      → Exported sysfs before
      → sysfs.accepts before direction_path (codes "out") ≡ true
      → sysfs.accepts
          (before ++ (tried direction_path (codes "out") true ∷ []))
          value_path
          (codes "0")
        ≡ true
      → ret ≡ pos 0
      → g.ready ≡ true
      → g.writes
        ≡ before
          ++ (tried direction_path (codes "out") true ∷ tried value_path (codes "0") true ∷ [])
      → Started sysfs ret g
  no_output :
      (before : List Write)
      → Exported sysfs before
      → sysfs.accepts before direction_path (codes "out") ≡ false
      → ret ≡ minus_one
      → g.ready ≡ false
      → g.writes ≡ before ++ (tried direction_path (codes "out") false ∷ [])
      → Started sysfs ret g
  not_driven :
      (before : List Write)
      → Exported sysfs before
      → sysfs.accepts before direction_path (codes "out") ≡ true
      → sysfs.accepts
          (before ++ (tried direction_path (codes "out") true ∷ []))
          value_path
          (codes "0")
        ≡ false
      → ret ≡ minus_one
      → g.ready ≡ false
      → g.writes
        ≡ before
          ++ (tried direction_path (codes "out") true ∷ tried value_path (codes "0") false ∷ [])
      → Started sysfs ret g

module _ (sysfs : Sysfs) where
  export_line-Exported :
      (export_line sysfs start).ready ≡ false × Exported sysfs (export_line sysfs start).writes
  unfolding export_line write_sysfs
  export_line-Exported = elim (Bool-cases (sysfs.exists [] value_path)) [
    | inl there ↦ rw there (refl, already there refl)
    | inr missing ↦ rw missing (refl, attempted missing refl)
  ]

  -- A marker that is not ready stays untouched.
  gpio_toggle_set-unready :
      (state : Bool) (g : Gpio) → g.ready ≡ false → gpio_toggle_set sysfs state g ≡ g
  unfolding gpio_toggle_set
  gpio_toggle_set-unready state g off = rw off refl

  -- Setting up the marker from the start exports the line first, if its value file is missing, and goes
  -- on whether that is taken or not. It returns 0, with the marker ready, exactly where the kernel takes
  -- the direction and then the low value; it returns -1, with the marker not ready, where it refuses the
  -- direction, and then tries nothing more, or the low value. A marker that is not ready is left alone by
  -- gpio_toggle_set.
  pub gpio_toggle_init-start :
      let (ret, g) = gpio_toggle_init sysfs start in
      Started sysfs ret g × (g.ready ≡ false → (state : Bool) → gpio_toggle_set sysfs state g ≡ g)
  unfolding gpio_toggle_init drive_low write_sysfs
  gpio_toggle_init-start =
      let exported = export_line sysfs start in
      let (off, before) = export_line-Exported in
      let out = sysfs.accepts exported.writes direction_path (codes "out") in
      let after = exported.writes ++ (tried direction_path (codes "out") out ∷ []) in
      let low = sysfs.accepts after value_path (codes "0") in
      (
        elim (Bool-cases out) [
          | inr refused ↦ rw refused (no_output exported.writes before refused refl off refl)
          | inl taken ↦ elim (Bool-cases low) [
            | inr refused ↦
                rw (taken, rw taken at refused)
                  (not_driven exported.writes before taken (rw taken at refused) refl off
                    (append_assoc exported.writes _ _))
            | inl driven ↦
                rw (taken, rw taken at driven)
                  (driven_low exported.writes before taken (rw taken at driven) refl refl
                    (append_assoc exported.writes _ _))
          ]
        ],
        λ unready state. gpio_toggle_set-unready state _ unready,
      )

  -- The marker of one frame: on a line that is ready, on and then off, with no other write; on one that
  -- is not, nothing at all.
  pub gpio_toggle_set-pulse :
      (g : Gpio)
      → let g' = gpio_toggle_set sysfs false (gpio_toggle_set sysfs true g) in
        let on = sysfs.accepts g.writes value_path (codes "1") in
        let after_on = g.writes ++ (tried value_path (codes "1") on ∷ []) in
        let off = sysfs.accepts after_on value_path (codes "0") in
        ((g.ready ≡ true)
          × (g' ≡ record g { writes = after_on ++ (tried value_path (codes "0") off ∷ []) }))
        ⊎ ((g.ready ≡ false) × (g' ≡ g))
  unfolding gpio_toggle_set write_sysfs
  gpio_toggle_set-pulse g = elim (Bool-cases g.ready) [
    | inl ready ↦ rw ready (inl (refl, refl))
    | inr unready ↦ rw unready (inr (refl, refl))
  ]
