-- ===== src/Memory.antt =====
-- What the code uses of the C library on bytes: `memcpy`, `memmove` and `snprintf` into an array of a
-- given size. Storage is the list of all its bytes, and a transfer that would read or write outside
-- its arrays is a fault, the value `none`.
pub mod Splice
pub mod Pieces
use imx8mp_pipe_line_setup.Prelude.{
  ℕ, ◌+◌, ◌-◌, ◌≤◌, ◌<◌, ◌≡◌, refl, Bool, true, false, ◌&&◌, ◌||◌, Option, none, some, List, [],
  ◌∷◌, ◌++◌, arith, leb, ltb, le→leb, if◌then◌else◌, length, take, drop, Bytes, min, length-append,
  length-take, length-drop, take-append, take_all,
}
use imx8mp_pipe_line_setup.Prelude.Int.{ℤ, pos, negsuc}

-- `memcpy(dst + at, src, n)`.
unfoldable pub memcpy : Bytes → ℕ → Bytes → ℕ → Option Bytes
memcpy dst at src n =
    if leb n (length src) && leb (at + n) (length dst)
    then some (take at dst ++ (take n src ++ drop (at + n) dst))
    else none

-- `memmove(buf + to, buf + from, n)`: the source is read before anything is written.
unfoldable pub memmove : Bytes → ℕ → ℕ → ℕ → Option Bytes
unfolding memcpy
memmove buf to from n = memcpy buf to (drop from buf) n

-- `snprintf` into an array of `size` bytes: the length of the whole rendering, and the bytes that
-- the array then holds, its terminator included.
pub record Printed : Type 0 where
  pub len : ℤ
  pub stored : Bytes

unfoldable pub snprintf : ℕ → Bytes → Printed
snprintf size full = record { len = pos (length full); stored = take (size - 1) full ++ (0 ∷ []) }

-- `len < 0 || (size_t)len >= sizeof(buf)`.
abbrev pub did_not_fit : ℤ → ℕ → Bool
did_not_fit (pos n) size = leb size n
did_not_fit (negsuc n) size = true

-- `(size_t)len`, used only where `len` is not negative.
abbrev pub size_of : ℤ → ℕ
size_of (pos n) = n
size_of (negsuc n) = 0

pub memcpy_fits :
    (dst : Bytes) (at : ℕ) (src : Bytes) (n : ℕ)
    → n ≤ length src
    → at + n ≤ length dst
    → memcpy dst at src n ≡ some (take at dst ++ (take n src ++ drop (at + n) dst))
unfolding memcpy
memcpy_fits dst at src n h k = ground arith

pub memmove_fits :
    (buf : Bytes) (to from n : ℕ)
    → from + n ≤ length buf
    → to + n ≤ length buf
    → memmove buf to from n ≡ some (take to buf ++ (take n (drop from buf) ++ drop (to + n) buf))
unfolding memmove
memmove_fits buf to from n h k =
    memcpy_fits buf to (drop from buf) n (omega (arith, length-drop from buf)) k

-- A write inside the array keeps its size.
pub length_written :
    (dst : Bytes) (at : ℕ) (src : Bytes) (n : ℕ)
    → n ≤ length src
    → at + n ≤ length dst
    → length (take at dst ++ (take n src ++ drop (at + n) dst)) ≡ length dst
length_written dst at src n h k = omega (
  arith,
  length-append (take at dst) (take n src ++ drop (at + n) dst),
  length-append (take n src) (drop (at + n) dst),
  length-take at dst,
  length-take n src,
  length-drop (at + n) dst,
)

-- What fits the array is stored whole, and its terminator after it.
pub snprintf_stored :
    (size : ℕ) (full : Bytes)
    → length full < size
    → take (length full) (snprintf size full).stored ≡ full
      × (length full ≤ length (snprintf size full).stored)
unfolding snprintf
snprintf_stored size full h =
    let e : take (size - 1) full ≡ full = take_all (size - 1) full (omega arith) in
    rw e (take-append (length full) full (0 ∷ []) refl, omega (arith, length-append full (0 ∷ [])))
