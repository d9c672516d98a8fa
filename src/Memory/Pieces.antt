-- ===== src/Memory/Pieces.antt =====
-- Writing one piece after another: the `APPEND` lines of `bridge_stamp_frame` in src/frame_bridge.cpp.
use imx8mp_pipe_line_setup.Prelude.{
  ℕ, ◌+◌, ◌≤◌, ◌≡◌, refl, sym, ap, ◌∙◌, Option, some, List, [], ◌∷◌, ◌++◌, arith, length, take,
  drop, Bytes, ◌>>=◌, All, append_assoc, length-append, length-take, length-drop, take-append,
  take_all, drop-append, drop-drop, take-append-drop,
}
use mathlib.Core.Path.{ap₂}
use imx8mp_pipe_line_setup.Memory.{memcpy, memcpy_fits, length_written}
use imx8mp_pipe_line_setup.Memory.Splice.{Holds}

-- A source and the number of its bytes to write.
abbrev pub Piece : Type 0
Piece = Bytes × ℕ

-- `memcpy(out + pos, src, n); pos += n` for each piece; the result is `pos` and the storage.
unfoldable pub append_all : Bytes → ℕ → List Piece → Option (ℕ × Bytes)
append_all out pos [] = some (pos, out)
append_all out pos ((src, n) ∷ pieces) = do
  out' ← memcpy out pos src n
  append_all out' (pos + n) pieces

abbrev pub joined : List Piece → Bytes
joined [] = []
joined ((src, n) ∷ pieces) = take n src ++ joined pieces

-- Each piece has the bytes that are taken from it.
abbrev pub IsSourced : Piece → Type 0
IsSourced p = p.1 ≤ length p.0

abbrev written : Bytes → ℕ → Bytes → ℕ → Bytes
written out pos src n = take pos out ++ (take n src ++ drop (pos + n) out)

module _ (out : Bytes) (pos : ℕ) (src : Bytes) (n : ℕ) (source : n ≤ length src)
    (room : pos + n ≤ length out) where
  length-both : pos + n ≡ length (take pos out ++ take n src)
  length-both =
      omega
        (arith, length-append (take pos out) (take n src), length-take pos out, length-take n src)

  take-written : take (pos + n) (written out pos src n) ≡ take pos out ++ take n src
  take-written =
      ap (take (pos + n)) (sym (append_assoc (take pos out) (take n src) (drop (pos + n) out)))
      ∙ take-append (pos + n) (take pos out ++ take n src) (drop (pos + n) out) length-both

  drop-written : (k : ℕ) → drop (pos + n + k) (written out pos src n) ≡ drop (pos + n + k) out
  drop-written k =
      sym (drop-drop k (pos + n) (pos + n + k) (written out pos src n) refl)
      ∙ ap (drop k) (
          ap (drop (pos + n)) (sym (append_assoc (take pos out) (take n src) (drop (pos + n) out)))
          ∙ drop-append (pos + n) (take pos out ++ take n src) (drop (pos + n) out) length-both)
      ∙ drop-drop k (pos + n) (pos + n + k) out refl

append_all-eq :
    (pieces : List Piece) (out : Bytes) (pos end : ℕ)
    → All IsSourced pieces
    → end ≡ pos + length (joined pieces)
    → end ≤ length out
    → append_all out pos pieces ≡ some (end, take pos out ++ (joined pieces ++ drop end out))
unfolding append_all
append_all-eq [] out pos end s e h =
    let e' : end ≡ pos = omega arith in rw (e', take-append-drop pos out)
append_all-eq ((src, n) ∷ pieces) out pos end s e h =
    let total = length-append (take n src) (joined pieces) in
    let taken = length-take n src in
    let room : pos + n ≤ length out = omega arith in
    let end_is : end ≡ pos + n + length (joined pieces) = omega arith in
    rw (memcpy_fits out pos src n s.0 room) (
      append_all-eq pieces (written out pos src n) (pos + n) end s.1 end_is
        (omega (arith, length_written out pos src n s.0 room))
      ∙ ap (λ t. some (end, t))
          (rw
            (
              take-written out pos src n s.0 room,
              end_is,
              drop-written out pos src n s.0 room (length (joined pieces)),
            )
            (append_assoc (take pos out) (take n src) _
              ∙ ap (◌++◌ (take pos out)) (sym (append_assoc (take n src) (joined pieces) _)))))

-- If all the pieces fit, no write faults and the array begins with them, in order.
pub append_all_lem :
    (pieces : List Piece) (out : Bytes)
    → All IsSourced pieces
    → length (joined pieces) ≤ length out
    → (out' : Bytes) × (append_all out 0 pieces ≡ some (length (joined pieces), out'))
      × Holds out' (joined pieces) (length out)
append_all_lem pieces out s h = (
  joined pieces ++ drop (length (joined pieces)) out,
  append_all-eq pieces out 0 (length (joined pieces)) s (omega arith) h,
  record {
    text_is = take-append _ (joined pieces) _ refl;
    size_is = omega (
      arith,
      length-append (joined pieces) (drop (length (joined pieces)) out),
      length-drop (length (joined pieces)) out,
    );
  },
)

-- The bytes that a piece supplies.
pub record Supplies (p : Piece) (bytes : Bytes) : Type 0 where
  pub taken : take p.1 p.0 ≡ bytes
  pub sourced : p.1 ≤ length p.0

abbrev pub Supply : List Piece → List Bytes → Type 0
Supply [] [] = Unit
Supply [] (b ∷ bs) = ⊥
Supply (p ∷ ps) [] = ⊥
Supply (p ∷ ps) (b ∷ bs) = Supplies p b × Supply ps bs

abbrev pub concat : List Bytes → Bytes
concat [] = []
concat (b ∷ bs) = b ++ concat bs

abbrev pub total_len : List Piece → ℕ
total_len [] = 0
total_len ((src, n) ∷ ps) = n + total_len ps

pub Supplies-whole : (bytes : Bytes) → Supplies (bytes, length bytes) bytes
Supplies-whole bytes = record { taken = take_all _ bytes (omega arith); sourced = omega arith }

pub joined-concat : (ps : List Piece) (bs : List Bytes) → Supply ps bs → joined ps ≡ concat bs
joined-concat [] [] s = refl
joined-concat [] (b ∷ bs) s = absurd s
joined-concat (p ∷ ps) [] s = absurd s
joined-concat ((src, n) ∷ ps) (b ∷ bs) s = ap₂ ◌++◌ s.0.taken (joined-concat ps bs s.1)

pub Supply-IsSourced : (ps : List Piece) (bs : List Bytes) → Supply ps bs → All IsSourced ps
Supply-IsSourced [] bs s = tt
Supply-IsSourced (p ∷ ps) [] s = absurd s
Supply-IsSourced (p ∷ ps) (b ∷ bs) s = (s.0.sourced, Supply-IsSourced ps bs s.1)

pub length-joined : (ps : List Piece) → All IsSourced ps → length (joined ps) ≡ total_len ps
length-joined [] s = refl
length-joined ((src, n) ∷ ps) s =
    omega
      (arith, length-append (take n src) (joined ps), length-take n src, length-joined ps s.1, s.0)
