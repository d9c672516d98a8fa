-- ===== src/Frame/Keyed/Unique.antt =====
-- The parts around a key are one.
use mathlib.Core.Path.{subst}
use imx8mp_pipe_line_setup.Prelude.{
  ℕ, ◌+◌, ◌≤◌, ◌<◌, ◌≡◌, refl, sym, ap, ◌∙◌, inl, inr, [], ◌∷◌, ◌++◌, arith, ltb, ltb→lt, ltb→le,
  Bool-cases, length, take, drop, get_or, Bytes, append_assoc, take-append, drop-append,
  length-drop, take-append-drop, take-append_le, drop-append_le, Bool,
}
use imx8mp_pipe_line_setup.Frame.Search.{OccursAt}
use imx8mp_pipe_line_setup.Frame.Span.{is_blank, is_number_char, StopsAt, AllPass}
use imx8mp_pipe_line_setup.Frame.Keyed.{IsKeyed}

-- A text has one split behind the longest prefix on which a test holds.
split_unique :
    (test : ℕ → Bool) (xs ys xs' ys' : Bytes)
    → AllPass test xs
    → AllPass test xs'
    → StopsAt test ys
    → StopsAt test ys'
    → xs ++ ys ≡ xs' ++ ys'
    → (xs ≡ xs') × (ys ≡ ys')
split_unique test [] ys [] ys' p q r t e = (refl, e)
split_unique test [] ys (x ∷ xs') ys' p q r t e =
    let stops : StopsAt test (x ∷ (xs' ++ ys')) = subst (StopsAt test) e r in
    let passes = q.0 in absurd cc
split_unique test (x ∷ xs) ys [] ys' p q r t e =
    let stops : StopsAt test (x ∷ (xs ++ ys)) = subst (StopsAt test) (sym e) t in
    let passes = p.0 in absurd cc
split_unique test (x ∷ xs) ys (x' ∷ xs') ys' p q r t e =
    let head : x ≡ x' = ap (λ l. get_or l 0 0) e in
    let (tail, rest) = split_unique test xs ys xs' ys' p.1 q.1 r t (ap (drop 1) e) in
    (λ i. head i ∷ tail i, rest)

-- An occurrence inside a prefix depends on nothing behind it.
pub OccursAt-prefix :
    (key p xs ys : Bytes) (i : ℕ)
    → i + length key ≤ length p
    → OccursAt key (p ++ xs) i
    → OccursAt key (p ++ ys) i
OccursAt-prefix key p xs ys i h (rest, e) =
    let inside : drop i p ++ xs ≡ key ++ rest = sym (drop-append_le i p xs (omega arith)) ∙ e in
    let room : length key ≤ length (drop i p) = omega (arith, length-drop i p) in
    let key_is : take (length key) (drop i p) ≡ key =
      sym (take-append_le (length key) (drop i p) xs room)
      ∙ ap (take (length key)) inside
      ∙ take-append (length key) key rest refl in
    let split : drop i p ≡ key ++ drop (length key) (drop i p) =
      sym (take-append-drop (length key) (drop i p))
      ∙ ap (λ t. t ++ drop (length key) (drop i p)) key_is in
    (
      drop (length key) (drop i p) ++ ys,
      drop-append_le i p ys (omega arith)
          ∙ ap (λ t. t ++ ys) split
          ∙ append_assoc key (drop (length key) (drop i p)) ys,
    )

-- Number characters are no blanks.
pub digits-StopsAt :
    (ds after : Bytes) → AllPass is_number_char ds → 0 < length ds → StopsAt is_blank (ds ++ after)
digits-StopsAt [] after p h = absurd (omega arith)
digits-StopsAt (c ∷ cs) after p h = let numeric = p.0 in ground arith

module _ (key text : Bytes) where
  from_key :
      (k : IsKeyed key text)
      → drop (length k.before) text ≡ key ++ (k.blanks ++ (k.value ++ k.after))
  from_key k = ap (drop (length k.before)) k.text_is ∙ drop-append (length k.before) k.before _ refl

  pub IsKeyed-OccursAt : (k : IsKeyed key text) → OccursAt key text (length k.before)
  IsKeyed-OccursAt k = (k.blanks ++ (k.value ++ k.after), from_key k)

  -- The first occurrence of a key is at one index.
  pub before_len : (k l : IsKeyed key text) → length k.before ≡ length l.before
  before_len k l = elim (Bool-cases (ltb (length k.before) (length l.before))) [
    | inl less ↦ absurd (l.first (length k.before) (ltb→lt _ _ less) (IsKeyed-OccursAt k))
    | inr not_less ↦ elim (Bool-cases (ltb (length l.before) (length k.before))) [
      | inl less ↦ absurd (k.first (length l.before) (ltb→lt _ _ less) (IsKeyed-OccursAt l))
      | inr not_more ↦ omega (arith, ltb→le _ _ not_less, ltb→le _ _ not_more)
    ]
  ]

  -- And so the value behind it is one.
  pub value_unique : (k l : IsKeyed key text) → k.value ≡ l.value
  value_unique k l =
      let same = before_len k l in
      let behind : key ++ (k.blanks ++ (k.value ++ k.after))
          ≡ key ++ (l.blanks ++ (l.value ++ l.after)) =
        sym (from_key k) ∙ ap (λ n. drop n text) same ∙ from_key l in
      let blanks_on : k.blanks ++ (k.value ++ k.after) ≡ l.blanks ++ (l.value ++ l.after) =
        sym (drop-append (length key) key _ refl)
        ∙ ap (drop (length key)) behind
        ∙ drop-append (length key) key _ refl in
      let (_, values_on) =
        split_unique is_blank k.blanks _ l.blanks _ k.blanks_pass l.blanks_pass k.blanks_stop
          l.blanks_stop blanks_on in
      (split_unique is_number_char k.value k.after l.value l.after k.value_passes l.value_passes
        k.value_stops l.value_stops values_on).0
