-- ===== src/Double/Printing.antt =====
-- The C library on the millionths of Double/Micro.antt: decimal texts read and printed, and coarse stand-ins
-- for the functions of <cmath>, so that the definitions run on concrete frames.
use imx8mp_pipe_line_setup.Prelude.{
  ℕ, zero, suc, ◌+◌, ◌-◌, ◌*◌, ◌/◌, ◌%◌, ◌^◌, Bool, [], ◌∷◌, ◌++◌, ◌==◌, leb, ◌&&◌, if◌then◌else◌,
  Bytes, codes,
}
use imx8mp_pipe_line_setup.Prelude.Int.{ℤ, pos, negsuc, sub_ℕ}
use imx8mp_pipe_line_setup.Double.{Libm, Stdio}

-- `places` digits of a fraction of 10 ^ places, and no more.
abbrev digits : ℕ → ℕ → Bytes
digits zero n = []
digits (suc places) n = digits places (n / 10) ++ ((48 + n % 10) ∷ [])

-- How many digits a number has, up to 41.
abbrev width : ℕ → ℕ → ℕ
width zero n = 1
width (suc fuel) n = let rest = width fuel (n / 10) in if leb 10 n then suc rest else 1

abbrev whole : ℕ → Bytes
whole n = digits (width 40 n) n

-- The magnitude in millionths, printed with a given number of places.
abbrev magnitude : ℕ → ℕ → Bytes
magnitude places n =
    whole (n / 1_000_000) ++ (codes "." ++ digits places (n % 1_000_000 * 10 ^ places / 1_000_000))

abbrev fixed : ℕ → ℤ → Bytes
fixed places (pos n) = magnitude places n
fixed places (negsuc n) = b'-' ∷ magnitude places (suc n)

abbrev is_digit : ℕ → Bool
is_digit c = leb 48 c && leb c 57

-- The millionths of the digits behind the point, where the next one counts `weight`.
abbrev fraction : ℕ → Bytes → ℕ
fraction weight [] = 0
fraction weight (c ∷ cs) =
    let rest = fraction (weight / 10) cs in if is_digit c then (c - 48) * weight + rest else 0

abbrev number : ℕ → Bytes → ℕ
number so_far [] = so_far * 1_000_000
number so_far (c ∷ cs) =
    let rest = number (so_far * 10 + (c - 48)) cs in
    if is_digit c then rest else so_far * 1_000_000 + (if c == b'.' then fraction 100_000 cs else 0)

abbrev strtod : Bytes → ℤ
strtod [] = pos 0
strtod (c ∷ cs) = if c == b'-' then sub_ℕ 0 (number 0 cs) else pos (number 0 (c ∷ cs))

instance abbrev pub micro_stdio : Stdio ℤ
micro_stdio = record { strtod = strtod; fixed = fixed }

instance abbrev pub micro_libm : Libm ℤ
micro_libm = record {
  sqrt = λ a. a;
  exp = λ a. pos 1_000_000;
  cos = λ a. pos 1_000_000;
  sin = λ a. a;
  atan2 = λ b a. b;
}
