-- ===== src/FrameStats/Windows.antt =====
-- The stats between two calls are those of the frames since the last report.
use mathlib.Core.Path.{subst}
use imx8mp_pipe_line_setup.Prelude.{
  ◌<◌, ◌≤◌, ◌≡◌, refl, sym, ap, inl, inr, Option, none, some, List, [], ◌∷◌, ◌++◌, arith, leb,
  leb→le, leb→lt, Bool-cases, length, length-append, ◌==◌, true, false,
}
use imx8mp_pipe_line_setup.Double.{Double, IsOrdered}
use imx8mp_pipe_line_setup.FrameStats.{
  window_size, Stats, Report, stat_add, stat_print, begin_window, add_frame, end_window,
  frame_stats_record,
}
use imx8mp_pipe_line_setup.FrameStats.Values.{
  IsStat, IsLine, stat_add-IsStat, stat_reset-IsStat, stat_print-IsLine,
}

-- The two times of one frame.
pub record Frame (W : Type 0) : Type 0 where
  pub frame_transfer_time : W
  pub processing_time : W

module _ {W : Type 0} ⦃d : Double W⦄ where
  abbrev pub transfers : List (Frame W) → List W
  transfers [] = []
  transfers (f ∷ fs) = f.frame_transfer_time ∷ transfers fs

  abbrev pub processings : List (Frame W) → List W
  processings [] = []
  processings (f ∷ fs) = f.processing_time ∷ processings fs

  abbrev pub totals : List (Frame W) → List W
  totals [] = []
  totals (f ∷ fs) = d.add f.frame_transfer_time f.processing_time ∷ totals fs

  -- `s` holds the statistics of `frames`, fewer than a window; of no frame, whatever is left over.
  pub record IsOver (frames : List (Frame W)) (s : Stats W) : Type 0 where
    pub count_is : s.count ≡ length frames
    pub short : length frames < window_size
    pub transfer_is : 0 < length frames → IsStat (transfers frames) s.transfer
    pub processing_is : 0 < length frames → IsStat (processings frames) s.processing
    pub total_is : 0 < length frames → IsStat (totals frames) s.total

  -- The statistics of `frames`, a window or less.
  record AreStats (frames : List (Frame W)) (s : Stats W) : Type 0 where
    count_is : s.count ≡ length frames
    transfer_is : IsStat (transfers frames) s.transfer
    processing_is : IsStat (processings frames) s.processing
    total_is : IsStat (totals frames) s.total

  transfers-concat :
      (frames : List (Frame W)) (f : Frame W)
      → transfers (frames ++ (f ∷ [])) ≡ transfers frames ++ (f.frame_transfer_time ∷ [])
  transfers-concat [] f = refl
  transfers-concat (g ∷ frames) f = ap (◌∷◌ g.frame_transfer_time) (transfers-concat frames f)

  processings-concat :
      (frames : List (Frame W)) (f : Frame W)
      → processings (frames ++ (f ∷ [])) ≡ processings frames ++ (f.processing_time ∷ [])
  processings-concat [] f = refl
  processings-concat (g ∷ frames) f = ap (◌∷◌ g.processing_time) (processings-concat frames f)

  totals-concat :
      (frames : List (Frame W)) (f : Frame W)
      → totals (frames ++ (f ∷ []))
        ≡ totals frames ++ (d.add f.frame_transfer_time f.processing_time ∷ [])
  totals-concat [] f = refl
  totals-concat (g ∷ frames) f =
      ap (◌∷◌ (d.add g.frame_transfer_time g.processing_time)) (totals-concat frames f)

  -- What a call gives back for the frames of the window, the new one included.
  pub data Recorded (frames : List (Frame W)) : Stats W × Option (Report W) → Type 0 where
    still_open :
        {r : Stats W × Option (Report W)} → IsOver frames r.0 → r.1 ≡ none → Recorded frames r
    reported :
        {r : Stats W × Option (Report W)} (report : Report W)
        → length frames ≡ window_size
        → r.1 ≡ some report
        → report.frames ≡ 100
        → IsLine (transfers frames) report.transfer_line
        → IsLine (processings frames) report.processing_line
        → IsLine (totals frames) report.total_line
        → IsOver [] r.0
        → Recorded frames r

module _ {W : Type 0} ⦃d : Double W⦄ (laws : IsOrdered W) where
  begin_window-AreStats :
      (frames : List (Frame W)) (s : Stats W) → IsOver frames s → AreStats frames (begin_window s)
  unfolding begin_window
  begin_window-AreStats [] s o =
      let first : (s.count == 0) ≡ true = ground (arith, o.count_is) in
      rw first (record {
        count_is = o.count_is;
        transfer_is = stat_reset-IsStat laws s.transfer;
        processing_is = stat_reset-IsStat laws s.processing;
        total_is = stat_reset-IsStat laws s.total;
      })
  begin_window-AreStats (g ∷ frames) s o =
      let later : (s.count == 0) ≡ false = ground (arith, o.count_is) in
      rw later (record {
        count_is = o.count_is;
        transfer_is = o.transfer_is (omega arith);
        processing_is = o.processing_is (omega arith);
        total_is = o.total_is (omega arith);
      })

  add_frame-AreStats :
      (frames : List (Frame W)) (f : Frame W) (s : Stats W)
      → AreStats frames s
      → AreStats (frames ++ (f ∷ [])) (add_frame f.frame_transfer_time f.processing_time s)
  unfolding add_frame
  add_frame-AreStats frames f s a = record {
    count_is = omega (arith, a.count_is, length-append frames (f ∷ []));
    transfer_is =
        subst (λ vs. IsStat vs (stat_add s.transfer f.frame_transfer_time))
          (sym (transfers-concat frames f))
          (stat_add-IsStat laws (transfers frames) f.frame_transfer_time s.transfer a.transfer_is);
    processing_is =
        subst (λ vs. IsStat vs (stat_add s.processing f.processing_time))
          (sym (processings-concat frames f))
          (stat_add-IsStat laws (processings frames) f.processing_time s.processing
            a.processing_is);
    total_is =
        let total = d.add f.frame_transfer_time f.processing_time in
        subst (λ vs. IsStat vs (stat_add s.total total)) (sym (totals-concat frames f))
          (stat_add-IsStat laws (totals frames) total s.total a.total_is);
  }

  end_window-Recorded :
      (frames : List (Frame W)) (s : Stats W)
      → AreStats frames s
      → length frames ≤ window_size
      → Recorded frames (end_window s)
  unfolding end_window
  end_window-Recorded frames s a h = elim (Bool-cases (leb window_size s.count)) [
    | inl full ↦
        let whole : s.count ≡ 100 = omega (arith, a.count_is, leb→le window_size s.count full) in
        rw full (
          reported _ (omega (arith, a.count_is, whole)) refl whole
            (subst (λ n. IsLine (transfers frames) (stat_print s.transfer n)) (sym whole)
              (stat_print-IsLine laws (transfers frames) s.transfer a.transfer_is))
            (subst (λ n. IsLine (processings frames) (stat_print s.processing n)) (sym whole)
              (stat_print-IsLine laws (processings frames) s.processing a.processing_is))
            (subst (λ n. IsLine (totals frames) (stat_print s.total n)) (sym whole)
              (stat_print-IsLine laws (totals frames) s.total a.total_is))
            (record {
              count_is = refl;
              short = omega arith;
              transfer_is = λ h. absurd (omega arith);
              processing_is = λ h. absurd (omega arith);
              total_is = λ h. absurd (omega arith);
            }))
    | inr open_still ↦ rw open_still (
        still_open
          (record {
            count_is = a.count_is;
            short = omega (arith, a.count_is, leb→lt window_size s.count open_still);
            transfer_is = λ _. a.transfer_is;
            processing_is = λ _. a.processing_is;
            total_is = λ _. a.total_is;
          })
          refl)
  ]

  -- From the statistics of the frames since the last report, frame_stats_record makes those with the new
  -- frame, for a double with IEEE 754's order: each of the three has the sum of its values in their
  -- order, a value of them or DBL_MAX that none is below, and a value of them or -DBL_MAX that none is
  -- above. At the hundredth it reports these extremes and the sum divided by a hundred, in milliseconds,
  -- and begins again with none.
  pub frame_stats_record-Recorded :
      (frames : List (Frame W)) (f : Frame W) (s : Stats W)
      → IsOver frames s
      → Recorded (frames ++ (f ∷ [])) (frame_stats_record f.frame_transfer_time f.processing_time s)
  unfolding frame_stats_record
  frame_stats_record-Recorded frames f s o =
      end_window-Recorded (frames ++ (f ∷ [])) _
        (add_frame-AreStats frames f (begin_window s) (begin_window-AreStats frames s o))
        (omega (arith, length-append frames (f ∷ []), o.short))
