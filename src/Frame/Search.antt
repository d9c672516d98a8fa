-- ===== src/Frame/Search.antt =====
-- `find_substr` of src/frame_bridge.cpp. A pointer and a length are the list of the bytes that they
-- delimit.
use imx8mp_pipe_line_setup.Prelude.{
  ℕ, zero, suc, ◌+◌, ◌≤◌, ◌<◌, ◌≡◌, refl, ap, Bool, true, false, ◌&&◌, ◌||◌, ◌↔◌, inl, inr, Option,
  none, some, [], ◌∷◌, ◌++◌, arith, ltb, ◌==◌, ltb→lt, Bool-cases, if◌then◌else◌, length, drop,
  Bytes, length-append, length-drop,
}

-- `memcmp(at, needle, strlen(needle)) == 0`.
pub starts_with : Bytes → Bytes → Bool
starts_with [] at = true
starts_with (n ∷ ns) [] = false
starts_with (n ∷ ns) (c ∷ cs) = (n == c) && starts_with ns cs

-- The loop, from index `i`, where `at` begins.
pub find_from : Bytes → Bytes → ℕ → Option ℕ
unfolding starts_with
find_from needle [] i = none
find_from needle (c ∷ cs) i =
    if ltb (length (c ∷ cs)) (length needle)
    then none
    else if starts_with needle (c ∷ cs)
    then some i
    else find_from needle cs (i + 1)

unfoldable pub find_substr : Bytes → Bytes → Option ℕ
unfolding find_from
find_substr haystack needle =
    if length needle == 0 || ltb (length haystack) (length needle)
    then none
    else find_from needle haystack 0

-- `needle` stands in `haystack` at index `i`.
abbrev pub OccursAt : Bytes → Bytes → ℕ → Type 0
OccursAt needle haystack i = (rest : Bytes) × (drop i haystack ≡ needle ++ rest)

abbrev pub IsFirst : Bytes → Bytes → Option ℕ → Type 0
IsFirst needle haystack none = (i : ℕ) → ¬ OccursAt needle haystack i
IsFirst needle haystack (some i) =
    OccursAt needle haystack i × ((j : ℕ) → j < i → ¬ OccursAt needle haystack j)

starts_with_iff :
    (needle at : Bytes) → (starts_with needle at ≡ true) ↔ ((rest : Bytes) × (at ≡ needle ++ rest))
unfolding starts_with
starts_with_iff [] at = (λ _. (at, refl), λ _. refl)
starts_with_iff (n ∷ ns) [] = (λ h. cc, λ (rest, e). cc)
starts_with_iff (n ∷ ns) (c ∷ cs) = (
  λ h. let (rest, e) = (starts_with_iff ns cs).0 (ground arith) in (rest, ground arith),
  λ (rest, e). let t = (starts_with_iff ns cs).1 (rest, ground arith) in ground arith,
)

too_short : (needle at : Bytes) (k : ℕ) → length at < length needle → ¬ OccursAt needle at k
too_short needle at k h (rest, e) =
    omega (arith, ap length e, length-append needle rest, length-drop k at)

-- What the loop finds from index `i` on is the first occurrence in `at`.
abbrev FoundFrom : Bytes → Bytes → ℕ → Option ℕ → Type 0
FoundFrom needle at i none = (k : ℕ) → ¬ OccursAt needle at k
FoundFrom needle at i (some r) =
    (k : ℕ) × (r ≡ i + k) × OccursAt needle at k × ((j : ℕ) → j < k → ¬ OccursAt needle at j)

FoundFrom-later :
    (needle : Bytes) (c : ℕ) (cs : Bytes) (i : ℕ) (o : Option ℕ)
    → ¬ OccursAt needle (c ∷ cs) 0
    → FoundFrom needle cs (i + 1) o
    → FoundFrom needle (c ∷ cs) i o
FoundFrom-later needle c cs i none here later = elim [ zero ↦ here | suc k ↦ later k ]
FoundFrom-later needle c cs i (some r) here (k, e, found, first) =
    (suc k, omega arith, found, elim [ zero ↦ λ _. here | suc j ↦ λ h. first j (omega arith) ])

find_from-FoundFrom :
    (needle at : Bytes) (i : ℕ) → 0 < length needle → FoundFrom needle at i (find_from needle at i)
unfolding find_from
find_from-FoundFrom needle [] i ne = λ k. too_short needle [] k ne
find_from-FoundFrom needle (c ∷ cs) i ne =
    elim (Bool-cases (ltb (length (c ∷ cs)) (length needle))) [
      | inl short ↦ rw short λ k. too_short needle (c ∷ cs) k (ltb→lt _ _ short)
      | inr long ↦ rw long (elim (Bool-cases (starts_with needle (c ∷ cs))) [
        | inl here ↦
            rw here (
              0,
              omega arith,
              (starts_with_iff needle (c ∷ cs)).0 here,
              λ j h. absurd (omega arith),
            )
        | inr other ↦ rw other (
            FoundFrom-later needle c cs i _
              (λ occurs. cc ((starts_with_iff needle (c ∷ cs)).1 occurs))
              (find_from-FoundFrom needle cs (i + 1) ne))
      ])
    ]

IsFirst-of_FoundFrom :
    (needle at : Bytes) (o : Option ℕ) → FoundFrom needle at 0 o → IsFirst needle at o
IsFirst-of_FoundFrom needle at none f = f
IsFirst-of_FoundFrom needle at (some r) (k, e, found, first) =
    let e' : r ≡ k = omega arith in rw e' (found, first)

-- find_substr on a text that is not empty finds its first occurrence, and finds none only where there is
-- none.
pub find_substr-IsFirst :
    (haystack needle : Bytes)
    → 0 < length needle
    → IsFirst needle haystack (find_substr haystack needle)
unfolding find_substr
find_substr-IsFirst haystack needle ne =
    let positive : (length needle == 0) ≡ false = ground arith in
    elim (Bool-cases (ltb (length haystack) (length needle))) [
      | inl short ↦ rw (positive, short) λ i. too_short needle haystack i (ltb→lt _ _ short)
      | inr long ↦
          rw (positive, long)
            (IsFirst-of_FoundFrom needle haystack _ (find_from-FoundFrom needle haystack 0 ne))
    ]

-- An occurrence ends inside the text.
pub OccursAt-bound :
    (needle haystack : Bytes) (i : ℕ)
    → 0 < length needle
    → OccursAt needle haystack i
    → i + length needle ≤ length haystack
OccursAt-bound needle haystack i ne (rest, e) =
    omega (arith, ap length e, length-append needle rest, length-drop i haystack)

pub find_substr_bound :
    (haystack needle : Bytes) (i : ℕ)
    → 0 < length needle
    → find_substr haystack needle ≡ some i
    → i + length needle ≤ length haystack
find_substr_bound haystack needle i ne e =
    OccursAt-bound needle haystack i ne (rw e at (find_substr-IsFirst haystack needle ne)).0
