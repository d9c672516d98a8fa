-- ===== src/ClockOffset/Minimum.antt =====
-- A call never reads an empty queue, and subtracts a least sample of the window.
use mathlib.Core.Path.{subst}
use imx8mp_pipe_line_setup.Prelude.{
  ◌≡◌, refl, sym, true, false, ◌⊎◌, inl, inr, some, [], ◌∷◌, ◌++◌, Bool-cases, All,
}
use imx8mp_pipe_line_setup.Double.{Double, IsNumber, ◌≼◌, IsOrdered}
use imx8mp_pipe_line_setup.ClockOffset.{
  Sample, Samples, is_stale, drop_stale, rolling_min, corrected, clock_offset_correct,
}

-- A value of some sample.
abbrev pub Among : {W : Type 0} → W → Samples W → Type 0
Among w [] = ⊥
Among w (sample ∷ samples) = (sample.second ≡ w) ⊎ Among w samples

module _ {W : Type 0} ⦃d : Double W⦄ (laws : IsOrdered W) where
  open laws use {lt_asymm, number_of_lt, le_trans, not_lt_of_le, sub_self, sub_mono}

  -- The new sample is never stale, so the loop stops at it at the latest.
  drop_stale-concat :
      (now value : W) (samples : Samples W)
      → let new : Sample W = record { first = now; second = value } in
        (kept : Samples W) × (drop_stale now (samples ++ (new ∷ [])) ≡ kept ++ (new ∷ []))
  unfolding drop_stale
  drop_stale-concat now value [] = ([], rw (sub_self now 30 0))
  drop_stale-concat now value (sample ∷ samples) = elim (Bool-cases (is_stale now sample)) [
    | inl stale ↦ rw stale (drop_stale-concat now value samples)
    | inr fresh ↦ rw fresh (sample ∷ samples, refl)
  ]

  -- Whatever the samples hold, a call does not fault.
  pub clock_offset_correct-some :
      (frame_transfer_time now : W) (samples : Samples W)
      → (r : W × Samples W) × (clock_offset_correct frame_transfer_time now samples ≡ some r)
  unfolding clock_offset_correct corrected
  clock_offset_correct-some frame_transfer_time now samples =
      let (kept, e) = drop_stale-concat now frame_transfer_time samples in
      rw e (some_of kept (record { first = now; second = frame_transfer_time }))
    where
      some_of :
          (kept : Samples W) (new : Sample W)
          → (r : W × Samples W) × (corrected frame_transfer_time (kept ++ (new ∷ [])) ≡ some r)
      some_of [] new = (_, refl)
      some_of (front ∷ kept) new = (_, refl)

  rolling_min-less :
      (least : W) (sample : Sample W) (samples : Samples W)
      → d.lt sample.second least ≡ true
      → rolling_min least (sample ∷ samples) ≡ rolling_min sample.second samples
  unfolding rolling_min
  rolling_min-less least sample samples h = rw h

  rolling_min-not_less :
      (least : W) (sample : Sample W) (samples : Samples W)
      → d.lt sample.second least ≡ false
      → rolling_min least (sample ∷ samples) ≡ rolling_min least samples
  unfolding rolling_min
  rolling_min-not_less least sample samples h = rw h

  rolling_min-nil : (least : W) → rolling_min least [] ≡ least
  unfolding rolling_min
  rolling_min-nil least = refl

  -- The minimum is a number no greater than the start or any sample, and is one of them.
  abbrev IsLeast : W → W → Samples W → Type 0
  IsLeast m least samples =
      IsNumber m × (m ≼ least) × All (λ s. m ≼ s.second) samples × ((m ≡ least) ⊎ Among m samples)

  rolling_min-IsLeast :
      (least : W) (samples : Samples W)
      → IsNumber least
      → IsLeast (rolling_min least samples) least samples
  rolling_min-IsLeast least [] n =
      rw (rolling_min-nil least) (n, not_lt_of_le least least n, tt, inl refl)
  rolling_min-IsLeast least (sample ∷ samples) n = elim (Bool-cases (d.lt sample.second least)) [
    | inl less ↦
        let number = (number_of_lt sample.second least less).0 in
        let (n', below, all, among) = rolling_min-IsLeast sample.second samples number in
        subst (λ m. IsLeast m least (sample ∷ samples))
          (sym (rolling_min-less least sample samples less))
          (
            n',
            le_trans _ sample.second least number below (lt_asymm sample.second least less),
            (below, all),
            inr (later among),
          )
    | inr not_less ↦
        let (n', below, all, among) = rolling_min-IsLeast least samples n in
        subst (λ m. IsLeast m least (sample ∷ samples))
          (sym (rolling_min-not_less least sample samples not_less))
          (
            n',
            below,
            (le_trans _ least sample.second n below not_less, all),
            elim among [ inl e ↦ inl e | inr a ↦ inr (inr a) ],
          )
  ]
    where
      later : {m : W} → (m ≡ sample.second) ⊎ Among m samples → Among m (sample ∷ samples)
      later (inl e) = inl (sym e)
      later (inr a) = inr a

  All-concat :
      (P : Sample W → Type 0) (samples : Samples W) (new : Sample W)
      → All P samples
      → P new
      → All P (samples ++ (new ∷ []))
  All-concat P [] new all here = (here, tt)
  All-concat P (sample ∷ samples) new all here = (all.0, All-concat P samples new all.1 here)

  All-last :
      (P : Sample W → Type 0) (samples : Samples W) (new : Sample W)
      → All P (samples ++ (new ∷ []))
      → P new
  All-last P [] new all = all.0
  All-last P (sample ∷ samples) new all = All-last P samples new all.1

  All-drop_stale :
      (P : Sample W → Type 0) (now : W) (samples : Samples W)
      → All P samples
      → All P (drop_stale now samples)
  unfolding drop_stale
  All-drop_stale P now [] all = tt
  All-drop_stale P now (sample ∷ samples) all = elim (Bool-cases (is_stale now sample)) [
    | inl stale ↦ rw stale (All-drop_stale P now samples all.1)
    | inr fresh ↦ rw fresh all
  ]

  -- The result on a window that is not empty.
  corrected-least :
      (value : W) (front : Sample W) (rest : Samples W)
      → All (λ s. IsNumber s.second) (front ∷ rest)
      → (least : W) × (corrected value (front ∷ rest) ≡ some (d.sub value least, front ∷ rest))
        × Among least (front ∷ rest)
        × All (λ s. least ≼ s.second) (front ∷ rest)
  unfolding corrected
  corrected-least value front rest numbers =
      let (n', below, all, among) = rolling_min-IsLeast front.second (front ∷ rest) numbers.0 in
      (
        rolling_min front.second (front ∷ rest),
        refl,
        elim among [ inl e ↦ inl (sym e) | inr a ↦ a ],
        all,
      )

  corrected-concat :
      (value : W) (kept : Samples W) (new : Sample W)
      → All (λ s. IsNumber s.second) (kept ++ (new ∷ []))
      → (least : W) × (corrected value (kept ++ (new ∷ []))
          ≡ some (d.sub value least, kept ++ (new ∷ [])))
        × Among least (kept ++ (new ∷ []))
        × All (λ s. least ≼ s.second) (kept ++ (new ∷ []))
  corrected-concat value [] new numbers = corrected-least value new [] numbers
  corrected-concat value (front ∷ kept) new numbers =
      corrected-least value front (kept ++ (new ∷ [])) numbers

  -- clock_offset_correct, given numbers only and for a double with IEEE 754's order, does not fault; its
  -- window ends with the new sample, and it returns the new time less a time of the window that no other
  -- is below. The new time is in the window, so the result is never below the new time less itself: it is
  -- not negative, also where the offset has just decreased.
  pub clock_offset_correct-least :
      (frame_transfer_time now : W) (samples : Samples W)
      → IsNumber frame_transfer_time
      → All (λ s. IsNumber s.second) samples
      → (kept : Samples W) × (least : W) × let window =
            kept ++ (record { first = now; second = frame_transfer_time } ∷ []) in
          (clock_offset_correct frame_transfer_time now samples
            ≡ some (d.sub frame_transfer_time least, window))
          × Among least window
          × All (λ s. least ≼ s.second) window
          × All (λ s. IsNumber s.second) window
          × (least ≼ frame_transfer_time)
          × (d.sub frame_transfer_time frame_transfer_time ≼ d.sub frame_transfer_time least)
  unfolding clock_offset_correct
  clock_offset_correct-least frame_transfer_time now samples n all =
      let new : Sample W = record { first = now; second = frame_transfer_time } in
      let (kept, e) = drop_stale-concat now frame_transfer_time samples in
      let numbers = rw e at (
        All-drop_stale (λ s. IsNumber s.second) now (samples ++ (new ∷ []))
          (All-concat (λ s. IsNumber s.second) samples new all n)) in
      let (least, result, among, below) = corrected-concat frame_transfer_time kept new numbers in
      let not_above = All-last (λ s. least ≼ s.second) kept new below in
      (
        kept,
        least,
        (
          rw e result,
          among,
          below,
          numbers,
          not_above,
          sub_mono frame_transfer_time least frame_transfer_time not_above,
        ),
      )
