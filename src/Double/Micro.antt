-- ===== src/Double/Micro.antt =====
-- Whole millionths with exact sums and truncated products: a type on which the definitions run, and on
-- which the laws of the order hold.
use imx8mp_pipe_line_setup.Prelude.{ℕ, suc, ◌+◌, ◌-◌, ◌*◌, ◌/◌, ◌^◌, Bool, arith, leb}
use imx8mp_pipe_line_setup.Prelude.Int.{
  ℤ, pos, negsuc, pos_part, neg_part, sub_ℕ, ◌+ℤ◌, ◌-ℤ◌, ◌*ℤ◌, ltb_ℤ, -ℤ_parts,
}
use imx8mp_pipe_line_setup.Double.{Double, IsOrdered}

abbrev unit : ℕ
unit = 1_000_000

-- Division of an integer by a positive number, towards zero.
abbrev quot : ℤ → ℕ → ℤ
quot a n = sub_ℕ (pos_part a / n) (neg_part a / n)

abbrev leb_ℤ : ℤ → ℤ → Bool
leb_ℤ a b = leb (pos_part a + neg_part b) (pos_part b + neg_part a)

-- The greatest multiple of the unit that is not above.
abbrev floor : ℤ → ℤ
floor a = sub_ℕ (pos_part a / unit * unit) ((neg_part a + unit - 1) / unit * unit)

abbrev divide : ℤ → ℤ → ℤ
divide a (pos n) = quot (a *ℤ pos unit) n
divide a (negsuc n) = quot (a *ℤ negsuc (unit - 1)) (suc n)

instance abbrev pub micro_double : Double ℤ
micro_double = record {
  decimal = λ m e. pos (m * unit / 10 ^ e);
  dbl_max = pos (10 ^ 30);
  neg = λ a. pos 0 -ℤ a;
  add = ◌+ℤ◌;
  sub = ◌-ℤ◌;
  mul = λ a b. quot (a *ℤ b) unit;
  div = divide;
  lt = ltb_ℤ;
  le = leb_ℤ;
  floor = floor;
  to_float = λ a. a;
  of_int = λ a. a *ℤ pos unit;
  to_int32 = λ a. quot a unit;
}

pub Micro-IsOrdered : IsOrdered ℤ
Micro-IsOrdered = record {
  lt_asymm = λ x y h. ground arith;
  number_of_lt = λ x y h. ground arith;
  le_trans = λ x y z n h k. ground arith;
  not_lt_of_le = λ x y h. ground arith;
  sub_self = λ x m e. ground (arith, -ℤ_parts x x);
  sub_mono = λ w x y h. ground (arith, -ℤ_parts w x, -ℤ_parts w y);
}
