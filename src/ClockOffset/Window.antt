-- ===== src/ClockOffset/Window.antt =====
-- Which samples the window keeps, where the clock has not stepped back.
use mathlib.Core.Path.{subst}
use imx8mp_pipe_line_setup.Prelude.{
  ◌≡◌, refl, sym, ap, ◌∙◌, false, inl, inr, some, [], ◌∷◌, ◌++◌, Bool-cases, if◌then◌else◌, All,
}
use imx8mp_pipe_line_setup.Double.{Double, IsNumber, ◌≼◌, IsOrdered}
use imx8mp_pipe_line_setup.ClockOffset.{
  Sample, Samples, window_seconds, is_stale, drop_stale, corrected, clock_offset_correct,
}

module _ {W : Type 0} ⦃d : Double W⦄ where
  -- The samples that are not stale, wherever they stand.
  pub fresh : W → Samples W → Samples W
  fresh now [] = []
  fresh now (sample ∷ samples) =
      if is_stale now sample then fresh now samples else sample ∷ fresh now samples

  -- The times do not fall.
  abbrev pub IsChronological : Samples W → Type 0
  IsChronological [] = Unit
  IsChronological (sample ∷ samples) =
      All (λ later. sample.first ≼ later.first) samples × IsChronological samples

  module _ (laws : IsOrdered W) where
    open laws use {le_trans, sub_mono, sub_self}

    fresh-All :
        (now : W) (sample : Sample W) (samples : Samples W)
        → IsNumber (d.sub now sample.first)
        → is_stale now sample ≡ false
        → All (λ later. sample.first ≼ later.first) samples
        → fresh now samples ≡ samples
    unfolding fresh
    fresh-All now sample [] n h later = refl
    fresh-All now sample (next ∷ samples) n h later =
        let still : is_stale now next ≡ false =
          le_trans (d.sub now next.first) (d.sub now sample.first) window_seconds n
            (sub_mono now sample.first next.first later.0) h in
        rw still (ap (◌∷◌ next) (fresh-All now sample samples n h later.1))

    drop_stale-fresh :
        (now : W) (samples : Samples W)
        → IsChronological samples
        → All (λ s. IsNumber (d.sub now s.first)) samples
        → drop_stale now samples ≡ fresh now samples
    unfolding drop_stale fresh
    drop_stale-fresh now [] c n = refl
    drop_stale-fresh now (sample ∷ samples) c n = elim (Bool-cases (is_stale now sample)) [
      | inl stale ↦ rw stale (drop_stale-fresh now samples c.1 n.1)
      | inr kept ↦ rw kept (ap (◌∷◌ sample) (sym (fresh-All now sample samples n.0 kept c.0)))
    ]

    corrected-some :
        (value : W) (kept : Samples W) (new : Sample W)
        → (result : W) × (corrected value (kept ++ (new ∷ [])) ≡ some (result, kept ++ (new ∷ [])))
    unfolding corrected
    corrected-some value [] new = (_, refl)
    corrected-some value (front ∷ kept) new = (_, refl)

    -- The new sample is fresh itself.
    fresh-concat :
        (now value : W) (samples : Samples W)
        → let new : Sample W = record { first = now; second = value } in
          fresh now (samples ++ (new ∷ [])) ≡ fresh now samples ++ (new ∷ [])
    unfolding fresh
    fresh-concat now value [] = rw (sub_self now 30 0) refl
    fresh-concat now value (sample ∷ samples) = elim (Bool-cases (is_stale now sample)) [
      | inl stale ↦ rw (stale, fresh) (fresh-concat now value samples)
      | inr still ↦ rw (still, fresh) (ap (◌∷◌ sample) (fresh-concat now value samples))
    ]

    -- clock_offset_correct, if the samples with the new one are in the order of their times, all ages are
    -- numbers and the double has IEEE 754's order, does not fault and keeps just the samples of the last
    -- thirty seconds, though it stops popping at the first that is not stale.
    pub clock_offset_correct-fresh :
        (frame_transfer_time now : W) (samples : Samples W)
        → let all = samples ++ (record { first = now; second = frame_transfer_time } ∷ []) in
          IsChronological all
          → All (λ s. IsNumber (d.sub now s.first)) all
          → (result : W) × (clock_offset_correct frame_transfer_time now samples
              ≡ some (result, fresh now all))
    unfolding clock_offset_correct
    clock_offset_correct-fresh frame_transfer_time now samples c n =
        let new : Sample W = record { first = now; second = frame_transfer_time } in
        let (result, e) = corrected-some frame_transfer_time (fresh now samples) new in
        (
          result,
          ap (corrected frame_transfer_time) (drop_stale-fresh now _ c n)
              ∙ subst
                  (λ (window : Samples W).
                    corrected frame_transfer_time window ≡ some (result, window))
                  (sym (fresh-concat now frame_transfer_time samples)) e,
        )
