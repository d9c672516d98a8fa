-- ===== src/Pipeline/History/Window.antt =====
-- The bounded deque of anchors against the list of all anchors of the session.
use imx8mp_pipe_line_setup.Prelude.{
  ℕ, ◌+◌, ◌-◌, ◌≤◌, ◌≡◌, refl, sym, ap, ◌∙◌, true, false, inl, inr, List, [], ◌∷◌, ◌++◌, arith, min,
  ltb, ltb→lt, ltb→le, Bool-cases, if◌then◌else◌, length, replicate, drop, length-append,
  length-drop, length-replicate, drop-append_le, drop-append_ge, drop-replicate, drop-drop,
}
use imx8mp_pipe_line_setup.Double.{Double, Libm}
use imx8mp_pipe_line_setup.Pipeline.History.{
  Point, History, needed, see_first, window_of, push_anchor, travelled, store, build,
}

-- The last `n` elements.
abbrev pub recent {ℓ} : {A : Type ℓ} → ℕ → List A → List A
recent n xs = drop (length xs - n) xs

module _ {ℓ} {A : Type ℓ} where
  length-recent : (n : ℕ) (xs : List A) → length (recent n xs) ≡ min n (length xs)
  length-recent n xs = omega (arith, length-drop (length xs - n) xs)

  -- Padding in front of the elements shows only where there are fewer than `n`.
  recent-padded :
      (n k : ℕ) (a : A) (xs : List A)
      → n ≡ length xs + k
      → recent n (replicate n a ++ xs) ≡ replicate k a ++ xs
  recent-padded n k a xs e =
      ap (λ t. drop t (replicate n a ++ xs))
        (omega (arith, length-append (replicate n a) xs, length-replicate n a))
      ∙ drop-append_le (length xs) (replicate n a) xs (omega (arith, length-replicate n a))
      ∙ ap (λ t. t ++ xs) (drop-replicate (length xs) n k a e)

  recent-full :
      (n : ℕ) (a : A) (xs : List A) → n ≤ length xs → recent n (replicate n a ++ xs) ≡ recent n xs
  recent-full n a xs h =
      drop-append_ge _ (length xs - n) (replicate n a) xs
        (omega (arith, length-append (replicate n a) xs, length-replicate n a))

  recent_short : (n : ℕ) (xs : List A) → length xs ≤ n → recent n xs ≡ xs
  recent_short n xs h = let e : length xs - n ≡ 0 = omega arith in ap (λ t. drop t xs) e

module _ {W : Type 0} where
  push_anchor-recent :
      (n : ℕ) (anchors : List (Point W)) (cur : Point W)
      → push_anchor n (recent n anchors) cur ≡ recent n (anchors ++ (cur ∷ []))
  unfolding push_anchor
  push_anchor-recent n anchors cur =
      let kept = length-recent n anchors in
      let one_more = length-append (recent n anchors) (cur ∷ []) in
      let all_more = length-append anchors (cur ∷ []) in
      let old = length anchors - n in
      elim (Bool-cases (ltb n (length (recent n anchors ++ (cur ∷ []))))) [
        | inl over ↦
            let full = ltb→lt n _ over in
            rw over (
              ap (drop 1) (sym (drop-append_le old anchors (cur ∷ []) (omega arith)))
              ∙ drop-drop 1 old (length (anchors ++ (cur ∷ [])) - n) (anchors ++ (cur ∷ []))
                  (omega arith))
        | inr under ↦
            let room = ltb→le n _ under in
            rw under (
              ap (λ t. t ++ (cur ∷ [])) (recent_short n anchors (omega arith))
              ∙ sym (recent_short n (anchors ++ (cur ∷ [])) (omega arith)))
      ]

  window_of-recent :
      (cur : Point W) (h : History W) (anchors : List (Point W))
      → h.hist ≡ recent (needed h) anchors
      → window_of cur h
        ≡ recent (needed h) (replicate (needed h) h.first_sample ++ anchors) ++ (cur ∷ [])
  unfolding window_of
  window_of-recent cur h anchors e =
      let kept = length-recent (needed h) anchors in
      let same : length h.hist ≡ length (recent (needed h) anchors) = ap length e in
      elim (Bool-cases (ltb (length h.hist) (needed h))) [
        | inl short ↦
            let few = ltb→lt _ _ short in
            rw short (
              ap (λ t. t ++ (cur ∷ []))
                (ap (◌++◌ (replicate (needed h - length h.hist) h.first_sample))
                    (e ∙ recent_short (needed h) anchors (omega arith))
                  ∙ sym (
                      recent-padded (needed h) (needed h - length h.hist) h.first_sample anchors
                        (omega arith))))
        | inr full ↦
            let many = ltb→le _ _ full in
            rw full (
              ap (λ t. t ++ (cur ∷ []))
                (e ∙ sym (recent-full (needed h) h.first_sample anchors (omega arith))))
      ]

-- The state after the samples of a session whose anchors are `anchors`, oldest first. Before the first
-- sample there are none.
pub record IsHistory {W : Type 0} (anchors : List (Point W)) (h : History W) : Type 0 where
  pub hist_is : h.hist ≡ recent (needed h) anchors
  pub none_before : h.has_first ≡ false → anchors ≡ []

module _ {W : Type 0} ⦃d : Double W⦄ ⦃m : Libm W⦄ where
  see_first_lem :
      (cur : Point W) (h : History W)
      → ((see_first cur h).hist ≡ h.hist)
        × ((see_first cur h).seq_len ≡ h.seq_len)
        × ((see_first cur h).anchor_distance ≡ h.anchor_distance)
        × ((see_first cur h).has_first ≡ true)
  unfolding see_first
  see_first_lem cur h = ground arith

  pub build-eq :
      (u v : W) (h : History W)
      → let cur : Point W = (d.to_float u, d.to_float v) in
        build u v h ≡ (window_of cur (see_first cur h), store cur (see_first cur h))
  unfolding build
  build-eq u v h = refl

  store-IsHistory :
      (cur : Point W) (h : History W) (anchors : List (Point W))
      → h.hist ≡ recent (needed h) anchors
      → let far = d.le h.anchor_distance (travelled cur h) in
        ((store cur h).hist ≡ recent (needed h) (if far then anchors ++ (cur ∷ []) else anchors))
        × ((store cur h).seq_len ≡ h.seq_len)
        × ((store cur h).first_sample ≡ h.first_sample)
        × ((store cur h).prev_sample ≡ cur)
        × ((store cur h).has_first ≡ h.has_first)
  unfolding store
  store-IsHistory cur h anchors e = elim (Bool-cases (d.le h.anchor_distance (travelled cur h))) [
    | inl far ↦
        rw (far, store)
          (
            ap (λ t. push_anchor (needed h) t cur) e ∙ push_anchor-recent (needed h) anchors cur,
            refl,
            refl,
            refl,
            refl,
          )
    | inr near ↦ rw (near, store) (e, refl, refl, refl, refl)
  ]

  -- The window and the anchors after a sample, by the distance that the state has.
  pub build-window :
      (u v : W) (h : History W) (anchors : List (Point W))
      → 1 ≤ h.seq_len
      → IsHistory anchors h
      → let cur : Point W = (d.to_float u, d.to_float v) in
        let seen = see_first cur h in
        let far = d.le h.anchor_distance (travelled cur seen) in
        let (window, h') = build u v h in
        (window
          ≡ recent (h.seq_len - 1) (replicate (h.seq_len - 1) seen.first_sample ++ anchors)
            ++ (cur ∷ []))
        × (length window ≡ h.seq_len)
        × IsHistory (if far then anchors ++ (cur ∷ []) else anchors) h'
        × (h'.seq_len ≡ h.seq_len)
        × (h'.first_sample ≡ seen.first_sample)
        × (h'.prev_sample ≡ cur)
        × (h'.has_first ≡ true)
  unfolding see_first
  build-window u v h anchors ne i =
      let cur : Point W = (d.to_float u, d.to_float v) in
      let seen = see_first cur h in
      let (hist_is, len_is, distance_is, has_first) = see_first_lem cur h in
      let seen_is : seen.hist ≡ recent (needed seen) anchors =
        hist_is ∙ i.hist_is ∙ ap (λ n. recent (n - 1) anchors) (sym len_is) in
      let window_is = window_of-recent cur seen anchors seen_is in
      let (stored, len', first', prev', has') = store-IsHistory cur seen anchors seen_is in
      let next =
        if d.le seen.anchor_distance (travelled cur seen) then anchors ++ (cur ∷ []) else anchors in
      let padded = replicate (needed seen) seen.first_sample ++ anchors in
      let hist' = stored ∙ ap {A = ℕ} (λ n. recent (n - 1) next) (sym len') in
      rw (build-eq u v h) (
        rw len_is at window_is,
        omega (
          arith,
          ap length window_is,
          length-append (recent (needed seen) padded) (cur ∷ []),
          length-recent (needed seen) padded,
          length-append (replicate (needed seen) seen.first_sample) anchors,
          length-replicate (needed seen) seen.first_sample,
        ),
        record { hist_is = rw distance_is at hist'; none_before = λ e. cc (has' ∙ has_first) },
        len' ∙ len_is,
        first',
        prev',
        has' ∙ has_first,
      )
