-- ===== src/Pipeline/Quantize/Nearest.antt =====
-- `round_half_to_even` and `quantize` where no sum leaves the range of `int32_t`.
use mathlib.Core.Path.{subst}
use imx8mp_pipe_line_setup.Prelude.{
  zero, suc, ◌+◌, ◌-◌, ◌/◌, ◌%◌, ◌^◌, ◌≡◌, ◌⊎◌, refl, ap, inl, inr, true, false, arith, Bool-cases,
  ltb,
}
use imx8mp_pipe_line_setup.Prelude.Int.{ℤ, pos, negsuc, ◌+ℤ◌, ◌≤ℤ◌, to_int, to_int_small, +ℤ_parts}
use imx8mp_pipe_line_setup.Double.{Double}
use imx8mp_pipe_line_setup.Pipeline.Quantize.{
  wrap_int32, add_int32, is_even, round_half_to_even, quantize,
}
use imx8mp_pipe_line_setup.Pipeline.Quantize.Range.{Saturated, quantize_range}

-- Twice some integer.
abbrev pub IsEven : ℤ → Type 0
IsEven n = (k : ℤ) × (n ≡ k +ℤ k)

-- In the range of `int32_t`.
abbrev pub IsInt32 : ℤ → Type 0
IsInt32 n = (negsuc (2 ^ 31 - 1) ≤ℤ n) × (n ≤ℤ pos (2 ^ 31 - 1))

wrap_small : (n : ℤ) → IsInt32 n → wrap_int32 n ≡ n
unfolding wrap_int32 to_int
wrap_small (pos n) h = to_int_small n (omega arith)
wrap_small (negsuc n) h =
    let low : (2 ^ 32 - 1 - n % 2 ^ 32) % 2 ^ 32 ≡ 2 ^ 32 - 1 - n = omega arith in
    let high : ltb (2 ^ 32 - 1 - n) (2 ^ 31) ≡ false = ground arith in
    rw (low, high) (ap negsuc (omega arith))

is_even_lem : (n : ℤ) → is_even n ≡ true → IsEven n
unfolding ◌+ℤ◌
is_even_lem (pos n) e = (pos (n / 2), ground arith)
is_even_lem (negsuc n) e = (negsuc (n / 2), ground arith)

is_odd_lem : (n : ℤ) → is_even n ≡ false → IsEven (n +ℤ pos 1)
unfolding ◌+ℤ◌
is_odd_lem (pos n) e = (pos ((n + 1) / 2), ground arith)
is_odd_lem (negsuc zero) e = (pos 0, refl)
is_odd_lem (negsuc (suc n)) e = (negsuc ((n + 1) / 2 - 1), ground arith)

-- An `int32_t` and a small number make no more than an `int32_t`.
sum_IsInt32 :
    (a b : ℤ)
    → negsuc (2 ^ 31 - 130) ≤ℤ a
    → a ≤ℤ pos (2 ^ 31 - 130)
    → negsuc 128 ≤ℤ b
    → b ≤ℤ pos 128
    → IsInt32 (a +ℤ b)
sum_IsInt32 a b lo hi lo' hi' = (ground (arith, +ℤ_parts a b), ground (arith, +ℤ_parts a b))

module _ {W : Type 0} ⦃d : Double W⦄ where
  -- The whole number nearest to `v`, with `n` for its floor: half-way the even one of the two.
  pub data Nearest (v : W) (n : ℤ) (r : ℤ) : Type 0 where
    down : d.lt (d.sub v (d.floor v)) (d.decimal 5 1) ≡ true → r ≡ n → Nearest v n r
    up : d.lt (d.decimal 5 1) (d.sub v (d.floor v)) ≡ true → r ≡ n +ℤ pos 1 → Nearest v n r
    half_way :
        d.lt (d.sub v (d.floor v)) (d.decimal 5 1) ≡ false
        → d.lt (d.decimal 5 1) (d.sub v (d.floor v)) ≡ false
        → IsEven r
        → (r ≡ n) ⊎ (r ≡ n +ℤ pos 1)
        → Nearest v n r

  -- The floor of a value is 131 or more inside the range of `int32_t`.
  abbrev pub IsInside : W → Type 0
  IsInside v =
      (negsuc (2 ^ 31 - 132) ≤ℤ d.to_int32 (d.floor v))
      × (d.to_int32 (d.floor v) ≤ℤ pos (2 ^ 31 - 132))

  round_half_to_even-Nearest :
      (v : W)
      → IsInside v
      → let fl = d.to_int32 (d.floor v) in
        Nearest v fl (round_half_to_even v)
        × (negsuc (2 ^ 31 - 131) ≤ℤ round_half_to_even v)
        × (round_half_to_even v ≤ℤ pos (2 ^ 31 - 131))
  unfolding round_half_to_even
  round_half_to_even-Nearest v (lo, hi) =
      let fl = d.to_int32 (d.floor v) in
      let frac = d.sub v (d.floor v) in
      let up_is : add_int32 fl (pos 1) ≡ fl +ℤ pos 1 =
        wrap_small (fl +ℤ pos 1)
          (sum_IsInt32 fl (pos 1) (omega arith) (omega arith) (omega arith) (omega arith)) in
      let part = +ℤ_parts fl (pos 1) in
      elim (Bool-cases (d.lt frac (d.decimal 5 1))) [
        | inl less ↦ rw less (down less refl, omega arith, omega arith)
        | inr not_less ↦ elim (Bool-cases (d.lt (d.decimal 5 1) frac)) [
          | inl more ↦
              rw (not_less, more, up_is) (up more refl, ground (arith, part), ground (arith, part))
          | inr not_more ↦ elim (Bool-cases (is_even fl)) [
            | inl even ↦
                rw (not_less, not_more, even)
                  (
                    half_way not_less not_more (is_even_lem fl even) (inl refl),
                    omega arith,
                    omega arith,
                  )
            | inr odd ↦
                rw (not_less, not_more, odd, up_is)
                  (
                    half_way not_less not_more (is_odd_lem fl odd) (inr refl),
                    ground (arith, part),
                    ground (arith, part),
                  )
          ]
        ]
      ]

  -- Quantize returns an int8_t: the whole number nearest to x / scale, the even one of two where the
  -- fraction behind the floor is neither below nor above a half, with the zero point added, or the nearer
  -- end of the range where that lies outside. The zero point is an int8_t, and the floor of x / scale is
  -- so far inside the range of int32_t that no sum overflows.
  pub quantize-Nearest :
      (x scale : W) (zero_point : ℤ)
      → IsInside (d.div x scale)
      → negsuc 127 ≤ℤ zero_point
      → zero_point ≤ℤ pos 127
      → (r : ℤ) × Nearest (d.div x scale) (d.to_int32 (d.floor (d.div x scale))) r
        × (negsuc 127 ≤ℤ quantize x scale zero_point)
        × (quantize x scale zero_point ≤ℤ pos 127)
        × Saturated (r +ℤ zero_point) (quantize x scale zero_point)
  quantize-Nearest x scale zero_point far lo hi =
      let r = round_half_to_even (d.div x scale) in
      let (nearest, low, high) = round_half_to_even-Nearest (d.div x scale) far in
      let (least, greatest, saturated) = quantize_range x scale zero_point in
      let small =
        sum_IsInt32 r zero_point (omega arith) (omega arith) (omega arith) (omega arith) in
      (
        r,
        nearest,
        least,
        greatest,
        subst (λ q. Saturated q (quantize x scale zero_point)) (wrap_small (r +ℤ zero_point) small)
            saturated,
      )
