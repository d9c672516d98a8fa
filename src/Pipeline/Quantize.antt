-- ===== src/Pipeline/Quantize.antt =====
-- `RoundHalfToEven`, `Quantize` and `Dequantize` of src/controller_pipeline.hpp. A sum of `int32_t` that
-- leaves their range is undefined in C++; here it wraps at 32 bits, as the machine's addition does.
pub mod Range
pub mod Nearest
use imx8mp_pipe_line_setup.Prelude.{ℕ, suc, ◌-◌, ◌%◌, ◌^◌, Bool, ◌==◌, if◌then◌else◌}
use imx8mp_pipe_line_setup.Prelude.Int.{ℤ, pos, negsuc, ◌+ℤ◌, ltb_ℤ, to_int}
use imx8mp_pipe_line_setup.Double.{Double}

-- The `int32_t` with the same last 32 bits as an integer.
unfoldable pub wrap_int32 : ℤ → ℤ
wrap_int32 (pos n) = to_int n
wrap_int32 (negsuc n) = to_int (2 ^ 32 - 1 - n % 2 ^ 32)

-- `a + b` on `int32_t`.
abbrev pub add_int32 : ℤ → ℤ → ℤ
add_int32 a b = wrap_int32 (a +ℤ b)

-- `fl % 2 == 0`
abbrev pub is_even : ℤ → Bool
is_even (pos n) = n % 2 == 0
is_even (negsuc n) = suc n % 2 == 0

-- `std::min` and `std::max`
abbrev pub min_ℤ : ℤ → ℤ → ℤ
min_ℤ a b = if ltb_ℤ b a then b else a

abbrev pub max_ℤ : ℤ → ℤ → ℤ
max_ℤ a b = if ltb_ℤ a b then b else a

module _ {W : Type 0} ⦃d : Double W⦄ where
  unfoldable pub round_half_to_even : W → ℤ
  round_half_to_even v =
      let floor_v = d.floor v in
      let frac = d.sub v floor_v in
      let fl = d.to_int32 floor_v in
      if d.lt frac (d.decimal 5 1)
      then fl
      else if d.lt (d.decimal 5 1) frac
      then add_int32 fl (pos 1)
      else if is_even fl
      then fl
      else add_int32 fl (pos 1)

  unfoldable pub quantize : W → W → ℤ → ℤ
  unfolding round_half_to_even
  quantize x scale zero_point =
      let q = add_int32 (round_half_to_even (d.div x scale)) zero_point in
      max_ℤ (negsuc 127) (min_ℤ (pos 127) q)

  unfoldable pub dequantize : ℤ → W → ℤ → W
  dequantize q scale zero_point = d.to_float (
      d.mul scale (d.to_float (d.sub (d.to_float (d.of_int q)) (d.to_float (d.of_int zero_point)))))
