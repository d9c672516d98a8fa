-- ===== src/Frame/Keyed/Single.antt =====
-- The single bytes of a text around a key.
use imx8mp_pipe_line_setup.Prelude.{
  ℕ, zero, suc, ◌+◌, ◌<◌, ◌≡◌, refl, sym, ap, ◌∙◌, Bool, true, false, not, ◌&&◌, [], ◌∷◌, ◌++◌,
  arith, ◌==◌, length, drop, get_or, Bytes,
}
use imx8mp_pipe_line_setup.Frame.Search.{OccursAt}
use imx8mp_pipe_line_setup.Frame.Span.{AllPass}

-- A text of `n` bytes or more, in the first `n` of which no `c` is followed by a `c'`.
unfoldable pub nowhere : (c c' : ℕ) → ℕ → Bytes → Bool
nowhere c c' zero text = true
nowhere c c' (suc n) [] = false
nowhere c c' (suc n) (b ∷ bs) = not (b == c && get_or bs 0 0 == c') && nowhere c c' n bs

pub nowhere_lem :
    (c c' n j : ℕ) (text : Bytes)
    → nowhere c c' n text ≡ true
    → j < n
    → get_or text j 0 ≡ c
    → ¬ (get_or text (j + 1) 0 ≡ c')
unfolding nowhere
nowhere_lem c c' zero j text h less e e' = absurd (omega arith)
nowhere_lem c c' (suc n) j [] h less e e' = absurd cc
nowhere_lem c c' (suc n) zero (b ∷ bs) h less e e' = ground arith
nowhere_lem c c' (suc n) (suc j) (b ∷ bs) h less e e' =
    let next : suc (j + 1) ≡ suc j + 1 = omega arith in
    nowhere_lem c c' n j bs (ground arith) (omega arith) e (ap (λ k. get_or (b ∷ bs) k 0) next ∙ e')

pub get_or-drop : (i k j d : ℕ) (xs : Bytes) → j ≡ i + k → get_or (drop i xs) k d ≡ get_or xs j d
get_or-drop zero k j d xs e = ap (λ n. get_or xs n d) (omega arith)
get_or-drop (suc i) k zero d xs e = absurd (omega arith)
get_or-drop (suc i) k (suc j) d [] e = refl
get_or-drop (suc i) k (suc j) d (x ∷ xs) e = get_or-drop i k j d xs (omega arith)

pub get_or-append :
    (k j d : ℕ) (xs ys : Bytes) → j ≡ length xs + k → get_or (xs ++ ys) j d ≡ get_or ys k d
get_or-append k j d [] ys e = ap (λ n. get_or ys n d) (omega arith)
get_or-append k zero d (x ∷ xs) ys e = absurd (omega arith)
get_or-append k (suc j) d (x ∷ xs) ys e = get_or-append k j d xs ys (omega arith)

-- The bytes of an occurrence.
pub occurs_byte :
    (key text : Bytes) (i k j : ℕ) (o : OccursAt key text i)
    → j ≡ i + k
    → get_or text j 0 ≡ get_or (key ++ o.0) k 0
occurs_byte key text i k j (rest, e) h = sym (get_or-drop i k j 0 text h) ∙ ap (λ l. get_or l k 0) e

-- A byte that fails a test does not stand where all bytes pass it.
pub AllPass-get_or :
    (test : ℕ → Bool) (c j : ℕ) (xs ys : Bytes)
    → test c ≡ false
    → AllPass test xs
    → j < length xs
    → ¬ (get_or (xs ++ ys) j 0 ≡ c)
AllPass-get_or test c j [] ys fails p h e = absurd (omega arith)
AllPass-get_or test c zero (x ∷ xs) ys fails p h e =
    let passes : test x ≡ true = p.0 in let same : test x ≡ test c = ap test e in absurd cc
AllPass-get_or test c (suc j) (x ∷ xs) ys fails p h e =
    AllPass-get_or test c j xs ys fails p.1 (omega arith) e
