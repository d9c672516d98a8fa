-- ===== src/Pipeline/Quantize/Range.antt =====
-- The range of `quantize`.
use imx8mp_pipe_line_setup.Prelude.{◌≡◌, inl, inr, true, arith, Bool-cases}
use imx8mp_pipe_line_setup.Prelude.Int.{ℤ, pos, negsuc, ◌≤ℤ◌, ltb_ℤ}
use imx8mp_pipe_line_setup.Double.{Double}
use imx8mp_pipe_line_setup.Pipeline.Quantize.{add_int32, min_ℤ, max_ℤ, round_half_to_even, quantize}

-- What `std::max(-128, std::min(127, q))` is of `q`.
pub data Saturated (q r : ℤ) : Type 0 where
  inside : negsuc 127 ≤ℤ q → q ≤ℤ pos 127 → r ≡ q → Saturated q r
  below : ltb_ℤ q (negsuc 127) ≡ true → r ≡ negsuc 127 → Saturated q r
  above : ltb_ℤ (pos 127) q ≡ true → r ≡ pos 127 → Saturated q r

clamped :
    (q : ℤ)
    → (negsuc 127 ≤ℤ max_ℤ (negsuc 127) (min_ℤ (pos 127) q))
      × (max_ℤ (negsuc 127) (min_ℤ (pos 127) q) ≤ℤ pos 127)
clamped q = ground arith

clamped-Saturated : (q : ℤ) → Saturated q (max_ℤ (negsuc 127) (min_ℤ (pos 127) q))
clamped-Saturated q = elim (Bool-cases (ltb_ℤ q (negsuc 127))) [
  | inl low ↦ below low (ground arith)
  | inr not_low ↦ elim (Bool-cases (ltb_ℤ (pos 127) q)) [
    | inl high ↦ above high (ground arith)
    | inr not_high ↦ inside (ground arith) (ground arith) (ground arith)
  ]
]

module _ {W : Type 0} ⦃d : Double W⦄ where
  -- The result fits an `int8_t`, also where a sum before it wraps.
  pub quantize_range :
      (x scale : W) (zero_point : ℤ)
      → (negsuc 127 ≤ℤ quantize x scale zero_point)
        × (quantize x scale zero_point ≤ℤ pos 127)
        × Saturated
            (add_int32 (round_half_to_even (d.div x scale)) zero_point)
            (quantize x scale zero_point)
  unfolding quantize
  quantize_range x scale zero_point =
      let q = add_int32 (round_half_to_even (d.div x scale)) zero_point in
      let bounds = clamped q in (bounds.0, bounds.1, clamped-Saturated q)
