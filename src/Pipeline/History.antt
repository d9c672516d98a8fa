-- ===== src/Pipeline/History.antt =====
-- `HistoryWindowBuilder` of src/controller_pipeline.hpp.
pub mod Window
pub mod Trail
use imx8mp_pipe_line_setup.Prelude.{
  ℕ, ◌+◌, ◌-◌, Bool, true, false, List, [], ◌∷◌, ◌++◌, ltb, if◌then◌else◌, length, replicate, drop,
}
use imx8mp_pipe_line_setup.Double.{Double, Libm}

-- `std::array<float, 2>`
abbrev pub Point : Type 0 → Type 0
Point W = W × W

pub record History (W : Type 0) : Type 0 where
  pub seq_len : ℕ
  pub anchor_distance : W
  pub hist : List (Point W)
  pub first_sample : Point W
  pub prev_sample : Point W
  pub accum_dist : W
  pub has_first : Bool

-- `seq_len_ - 1`; with no element at all the deque stays empty, as with the -1 of the source.
abbrev pub needed : {W : Type 0} → History W → ℕ
needed h = h.seq_len - 1

module _ {W : Type 0} where
  -- The first sample of a session is kept for padding.
  unfoldable pub see_first : Point W → History W → History W
  see_first cur h =
      if h.has_first
      then h
      else record h { first_sample = cur; prev_sample = cur; has_first = true }

  pub window_of : Point W → History W → List (Point W)
  window_of cur h =
      (if ltb (length h.hist) (needed h)
        then replicate (needed h - length h.hist) h.first_sample ++ h.hist
        else h.hist)
      ++ (cur ∷ [])

  -- `push_back`, and `pop_front` past the bound.
  pub push_anchor : ℕ → List (Point W) → Point W → List (Point W)
  push_anchor bound hist cur =
      let pushed = hist ++ (cur ∷ []) in if ltb bound (length pushed) then drop 1 pushed else pushed

module _ {W : Type 0} ⦃d : Double W⦄ where
  unfoldable pub new_history : ℕ → W → History W
  new_history seq_len anchor_distance = record {
    seq_len = seq_len;
    anchor_distance = anchor_distance;
    hist = [];
    first_sample = (d.decimal 0 0, d.decimal 0 0);
    prev_sample = (d.decimal 0 0, d.decimal 0 0);
    accum_dist = d.decimal 0 0;
    has_first = false;
  }

  unfoldable pub reset : History W → History W
  reset h = record h { hist = []; has_first = false; accum_dist = d.decimal 0 0 }

  module _ ⦃m : Libm W⦄ where
    -- The distance moved so far, with the step to `cur`.
    pub travelled : Point W → History W → W
    travelled cur h =
        let dx = d.to_float (d.sub cur.0 h.prev_sample.0) in
        let dy = d.to_float (d.sub cur.1 h.prev_sample.1) in
        d.add h.accum_dist (m.sqrt (d.add (d.mul dx dx) (d.mul dy dy)))

    pub store : Point W → History W → History W
    unfolding travelled push_anchor
    store cur h =
        let far = travelled cur h in
        if d.le h.anchor_distance far
        then record h {
          hist = push_anchor (needed h) h.hist cur;
          prev_sample = cur;
          accum_dist = d.decimal 0 0;
        }
        else record h { prev_sample = cur; accum_dist = far }

    -- The window, and the state afterwards.
    unfoldable pub build : W → W → History W → List (Point W) × History W
    unfolding see_first window_of store
    build u v h =
        let cur : Point W = (d.to_float u, d.to_float v) in
        let h' = see_first cur h in (window_of cur h', store cur h')
