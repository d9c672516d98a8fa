-- ===== src/Frame/Edit/JoystickKeys.antt =====
-- The two keys of the joystick position never overlap in a text.
use imx8mp_pipe_line_setup.Prelude.{
  ℕ, suc, ◌+◌, ◌-◌, ◌<◌, ◌≡◌, refl, sym, ◌∙◌, inl, inr, true, ◌++◌, arith, ltb, ltb→lt, ltb→le,
  Bool-cases, length, drop, get_or, Bytes,
}
use imx8mp_pipe_line_setup.Frame.Search.{OccursAt}
use imx8mp_pipe_line_setup.Frame.Keyed.Single.{nowhere, nowhere_lem, get_or-drop, occurs_byte}
use imx8mp_pipe_line_setup.Frame.Keyed.Other.{IsQuoted, IsApart}
use imx8mp_pipe_line_setup.Frame.Extract.{joystick_x_key, joystick_y_key}

-- A key of the joystick: behind its first byte no quotation mark has a `j` behind it.
record IsJoystickKey (key : Bytes) : Type 0 where
  size : length key ≡ 13
  quoted : IsQuoted key
  letter : (rest : Bytes) → get_or (key ++ rest) 1 0 ≡ b'j'
  apart : (rest : Bytes) → nowhere b'"' b'j' 12 (drop 1 (key ++ rest)) ≡ true

x_key-IsJoystickKey : IsJoystickKey joystick_x_key
unfolding nowhere
x_key-IsJoystickKey = record {
  size = refl;
  quoted = λ rest. refl;
  letter = λ rest. refl;
  apart = λ rest. refl;
}

y_key-IsJoystickKey : IsJoystickKey joystick_y_key
unfolding nowhere
y_key-IsJoystickKey = record {
  size = refl;
  quoted = λ rest. refl;
  letter = λ rest. refl;
  apart = λ rest. refl;
}

-- A key does not begin inside another.
not_inside :
    (key other text : Bytes) (i j : ℕ)
    → IsJoystickKey key
    → IsJoystickKey other
    → OccursAt key text i
    → OccursAt other text j
    → i < j
    → ¬ (j < i + 13)
not_inside key other text i j k l o o' h h' =
    let n = j - i - 1 in
    let behind = λ (m : ℕ). get_or-drop 1 m (suc m) 0 (key ++ o.0) (omega arith) in
    nowhere_lem b'"' b'j' 12 n (drop 1 (key ++ o.0)) (k.apart o.0) (omega arith)
      (behind n
        ∙ sym (occurs_byte key text i (suc n) j o (omega arith))
        ∙ occurs_byte other text j 0 j o' (omega arith)
        ∙ l.quoted o'.0)
      (behind (n + 1)
        ∙ sym (occurs_byte key text i (suc (n + 1)) (j + 1) o (omega arith))
        ∙ occurs_byte other text j 1 (j + 1) o' (omega arith)
        ∙ l.letter o'.0)

joystick_keys-IsApart :
    (key other : Bytes)
    → IsJoystickKey key
    → IsJoystickKey other
    → ((rest rest' : Bytes) → ¬ (get_or (key ++ rest) 10 0 ≡ get_or (other ++ rest') 10 0))
    → IsApart key other
joystick_keys-IsApart key other k l differ text i j o o' = elim (Bool-cases (ltb i j)) [
  | inl less ↦ elim (Bool-cases (ltb j (i + 13))) [
    | inl inside ↦
        absurd (not_inside key other text i j k l o o' (ltb→lt i j less) (ltb→lt j (i + 13) inside))
    | inr past ↦ inl (omega (arith, k.size, ltb→le j (i + 13) past))
  ]
  | inr not_less ↦ elim (Bool-cases (ltb j i)) [
    | inl less ↦ elim (Bool-cases (ltb i (j + 13))) [
      | inl inside ↦
          absurd
            (not_inside other key text j i l k o' o (ltb→lt j i less) (ltb→lt i (j + 13) inside))
      | inr past ↦ inr (omega (arith, l.size, ltb→le i (j + 13) past))
    ]
    | inr same ↦ absurd (
        differ o.0 o'.0 (
          sym (occurs_byte key text i 10 (i + 10) o refl)
          ∙ occurs_byte other text j 10 (i + 10) o'
              (omega (arith, ltb→le i j not_less, ltb→le j i same))))
  ]
]

pub x_y-IsApart : IsApart joystick_x_key joystick_y_key
x_y-IsApart =
    joystick_keys-IsApart joystick_x_key joystick_y_key x_key-IsJoystickKey y_key-IsJoystickKey
      (λ rest rest' e. omega (arith, e))

pub y_x-IsApart : IsApart joystick_y_key joystick_x_key
y_x-IsApart =
    joystick_keys-IsApart joystick_y_key joystick_x_key y_key-IsJoystickKey x_key-IsJoystickKey
      (λ rest rest' e. omega (arith, e))
