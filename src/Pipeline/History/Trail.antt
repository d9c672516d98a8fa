-- ===== src/Pipeline/History/Trail.antt =====
-- The way since the last anchor, and with it which samples become anchors.
use imx8mp_pipe_line_setup.Prelude.{
  ◌-◌, ◌≤◌, ◌≡◌, refl, sym, ap, ◌∙◌, true, false, inl, inr, List, [], ◌∷◌, ◌++◌, arith, Bool-cases,
  if◌then◌else◌, length, replicate,
}
use imx8mp_pipe_line_setup.Double.{Double, Libm}
use imx8mp_pipe_line_setup.Pipeline.History.{Point, History, see_first, travelled, store, build}
use imx8mp_pipe_line_setup.Pipeline.History.Window.{IsHistory, recent, build-window, build-eq}

module _ {W : Type 0} ⦃d : Double W⦄ ⦃m : Libm W⦄ where
  -- The distance of two points.
  abbrev pub distance : Point W → Point W → W
  distance p q =
      let dx = d.to_float (d.sub q.0 p.0) in
      let dy = d.to_float (d.sub q.1 p.1) in m.sqrt (d.add (d.mul dx dx) (d.mul dy dy))

  -- The distances from each point to the next, added up in their order.
  abbrev pub way : W → List (Point W) → W
  way acc [] = acc
  way acc (p ∷ []) = acc
  way acc (p ∷ q ∷ ps) = way (d.add acc (distance p q)) (q ∷ ps)

  -- The points since the last anchor, which is the first of them; before the first anchor, since the
  -- first sample.
  pub record IsTrail (trail : List (Point W)) (h : History W) : Type 0 where
    pub way_is : h.accum_dist ≡ way (d.decimal 0 0) trail
    pub none_before : h.has_first ≡ false → trail ≡ []
    pub ends :
        h.has_first ≡ true → (front : List (Point W)) × (trail ≡ front ++ (h.prev_sample ∷ []))

  way-concat :
      (acc : W) (front : List (Point W)) (p q : Point W)
      → way acc ((front ++ (p ∷ [])) ++ (q ∷ []))
        ≡ d.add (way acc (front ++ (p ∷ []))) (distance p q)
  way-concat acc [] p q = refl
  way-concat acc (r ∷ []) p q = refl
  way-concat acc (r ∷ s ∷ front) p q = way-concat (d.add acc (distance r s)) (s ∷ front) p q

  -- The points with the new one; the first sample is there twice, as its own predecessor.
  abbrev pub trail_with : Point W → History W → List (Point W) → List (Point W)
  trail_with cur h trail = (if h.has_first then trail else cur ∷ []) ++ (cur ∷ [])

  travelled-way :
      (cur : Point W) (h : History W) (trail : List (Point W))
      → IsTrail trail h
      → travelled cur (see_first cur h) ≡ way (d.decimal 0 0) (trail_with cur h trail)
  unfolding travelled see_first
  travelled-way cur h trail i = elim (Bool-cases h.has_first) [
    | inl seen ↦
        let (front, trail_is) = i.ends seen in
        rw seen (
          ap (λ a. d.add a (distance h.prev_sample cur))
            (i.way_is ∙ ap (way (d.decimal 0 0)) trail_is)
          ∙ sym (
              ap (λ t. way (d.decimal 0 0) (t ++ (cur ∷ []))) trail_is
              ∙ way-concat (d.decimal 0 0) front h.prev_sample cur))
    | inr first ↦ rw first (
        ap (λ a. d.add a (distance cur cur))
          (i.way_is ∙ ap (way (d.decimal 0 0)) (i.none_before first)))
  ]

  seen_first :
      (cur : Point W) (h : History W)
      → ((see_first cur h).has_first ≡ true)
        × ((see_first cur h).anchor_distance ≡ h.anchor_distance)
  unfolding see_first
  seen_first cur h = ground arith

  store-IsTrail :
      (cur : Point W) (h : History W) (trail : List (Point W))
      → h.has_first ≡ true
      → travelled cur h ≡ way (d.decimal 0 0) (trail ++ (cur ∷ []))
      → IsTrail
          (if d.le h.anchor_distance (travelled cur h) then cur ∷ [] else trail ++ (cur ∷ []))
          (store cur h)
  unfolding store
  store-IsTrail cur h trail seen way_is =
      elim (Bool-cases (d.le h.anchor_distance (travelled cur h))) [
        | inl far ↦
            rw (far, store)
              (record { way_is = refl; none_before = λ e. cc; ends = λ e. ([], refl) })
        | inr near ↦
            rw (near, store)
              (record { way_is = way_is; none_before = λ e. cc; ends = λ e. (trail, refl) })
      ]

  -- HistoryWindowBuilder::Build, with a window of at least one point, returns seq_len points: the last
  -- seq_len - 1 of the padding by the first sample and all anchors of the session so far, and the current
  -- sample. That sample becomes an anchor exactly if the distances from point to point since the last
  -- anchor, or since the first sample, added up with the new one, reach the anchor distance; the way then
  -- begins anew from it, and else goes on with it. The state has these anchors and this way.
  pub build-IsTrail :
      (u v : W) (h : History W) (anchors trail : List (Point W))
      → 1 ≤ h.seq_len
      → IsHistory anchors h
      → IsTrail trail h
      → let cur : Point W = (d.to_float u, d.to_float v) in
        let seen = see_first cur h in
        let path = trail_with cur h trail in
        let far = d.le h.anchor_distance (way (d.decimal 0 0) path) in
        let (window, h') = build u v h in
        (window
          ≡ recent (h.seq_len - 1) (replicate (h.seq_len - 1) seen.first_sample ++ anchors)
            ++ (cur ∷ []))
        × (length window ≡ h.seq_len)
        × IsHistory (if far then anchors ++ (cur ∷ []) else anchors) h'
        × IsTrail (if far then cur ∷ [] else path) h'
        × (h'.seq_len ≡ h.seq_len)
        × (h'.first_sample ≡ seen.first_sample)
        × (h'.prev_sample ≡ cur)
        × (h'.has_first ≡ true)
  unfolding see_first
  build-IsTrail u v h anchors trail ne i j =
      let cur : Point W = (d.to_float u, d.to_float v) in
      let seen = see_first cur h in
      let way_is = travelled-way cur h trail j in
      let (window_is, len_is, history, seq_is, first_is, prev_is, has_is) =
        build-window u v h anchors ne i in
      let (has_first, distance_is) = seen_first cur h in
      let trail' =
        store-IsTrail cur seen (if h.has_first then trail else cur ∷ []) has_first way_is in
      let stored : (build u v h).1 ≡ store cur seen = ap (λ r. r.1) (build-eq u v h) in
      (
        window_is,
        len_is,
        rw way_is at history,
        rw stored (rw (way_is, distance_is) at trail'),
        seq_is,
        first_is,
        prev_is,
        has_is,
      )
