-- ===== src/Server/Capacity.antt =====
-- The sizes of src/bridge_common.h: a frame of a controller has room for the stamp.
use imx8mp_pipe_line_setup.Prelude.{
  ℕ, ◌+◌, ◌≤◌, ◌<◌, ◌≡◌, refl, ap, ◌∙◌, ◌⊎◌, inl, inr, Option, some, List, [], ◌∷◌, ◌++◌, arith,
  leb, leb→le, leb→lt, Bool-cases, length, Bytes, length-append,
}
use imx8mp_pipe_line_setup.Prelude.Int.{pos}
use imx8mp_pipe_line_setup.Memory.Pieces.{concat}
use imx8mp_pipe_line_setup.Double.{Double, Stdio}
use imx8mp_pipe_line_setup.Frame.Stamp.{Times, Stamped, bridge_stamp_frame}
use imx8mp_pipe_line_setup.Frame.Stamp.Outcome.{
  stamped_parts, IsStamped, StampFails, long_copy, long_number, long_result, copied, dropped,
  stamped,
}
use imx8mp_pipe_line_setup.Frame.Stamp.Layout.{bridge_stamp_frame-StampOutcome}
use imx8mp_pipe_line_setup.Server.{max_bridged_frame_len}

abbrev total : List Bytes → ℕ
total [] = 0
total (b ∷ bs) = length b + total bs

length-concat : (bs : List Bytes) → length (concat bs) ≡ total bs
length-concat [] = refl
length-concat (b ∷ bs) = length-append b (concat bs) ∙ ap (λ n. length b + n) (length-concat bs)

short_or_long : (b : Bytes) → (32 ≤ length b) ⊎ (length b < 32)
short_or_long b = elim (Bool-cases (leb 32 (length b))) [
  | inl long ↦ inl (leb→le _ _ long)
  | inr short ↦ inr (leb→lt _ _ short)
]

module _ {W : Type 0} ⦃d : Double W⦄ ⦃s : Stdio W⦄ (input : Bytes) (received forward : W) where
  -- A number of the stamp whose rendering exceeds its array.
  abbrev pub LongNumber : Times W → Type 0
  LongNumber t =
      (32 ≤ length (s.fixed 6 forward))
      ⊎ ((32 ≤ length (s.fixed 6 received))
          ⊎ ((32 ≤ length (s.fixed 6 t.processing_time))
              ⊎ (32 ≤ length (s.fixed 6 t.frame_transfer_time))))

  -- Five keys and four numbers grow the frame by less than three hundred bytes.
  length-stamped :
      (t : Times W) (result : Bytes)
      → IsStamped input received forward t result
      → length (s.fixed 6 forward) < 32
      → length (s.fixed 6 received) < 32
      → length (s.fixed 6 t.processing_time) < 32
      → length (s.fixed 6 t.frame_transfer_time) < 32
      → length result ≤ length input + 300
  length-stamped t result i f r p q =
      let k = i.parts in
      omega (
        arith,
        ap length i.result_is
            ∙ length-concat (stamped_parts i.key input i.parts received forward t),
        ap length k.text_is,
        length-append k.before (i.key ++ (k.blanks ++ (k.value ++ k.after))),
        length-append i.key (k.blanks ++ (k.value ++ k.after)),
        length-append k.blanks (k.value ++ k.after),
        length-append k.value k.after,
      )

  LongNumber-of_StampFails :
      (o : Option (Times W))
      → length input ≤ 512
      → StampFails input received forward max_bridged_frame_len o
      → (t : Times W) × (o ≡ some t) × LongNumber t
  LongNumber-of_StampFails o h (long_copy o_is no_key over) = absurd (omega arith)
  LongNumber-of_StampFails o h (long_number t o_is long) = (t, o_is, long)
  LongNumber-of_StampFails o h (long_result t result o_is i over) = (
    t,
    o_is,
    elim (short_or_long (s.fixed 6 forward)) [
      | inl long ↦ inl long
      | inr f ↦ elim (short_or_long (s.fixed 6 received)) [
        | inl long ↦ inr (inl long)
        | inr r ↦ elim (short_or_long (s.fixed 6 t.processing_time)) [
          | inl long ↦ inr (inr (inl long))
          | inr p ↦ elim (short_or_long (s.fixed 6 t.frame_transfer_time)) [
            | inl long ↦ inr (inr (inr long))
            | inr q ↦ absurd (omega (arith, length-stamped t result i f r p q))
          ]
        ]
      ]
    ],
  )

  -- A frame of at most 512 bytes always fits storage of 1024: bridge_stamp_frame does not fault, and
  -- fails only if one of the four numbers takes 32 bytes or more.
  pub bridge_stamp_frame-fits :
      (out : Bytes)
      → length input ≤ 512
      → max_bridged_frame_len ≤ length out
      → (r : Stamped W) × (bridge_stamp_frame input received forward out max_bridged_frame_len
          ≡ some r)
        × (((n : ℕ) × (r.ret ≡ pos n) × (n ≤ max_bridged_frame_len))
            ⊎ ((t : Times W) × (r.times ≡ some t) × LongNumber t))
  bridge_stamp_frame-fits out h room =
      let (r, done, outcome) =
        bridge_stamp_frame-StampOutcome input received forward out max_bridged_frame_len room
          (omega arith) in
      (
        r,
        done,
        elim outcome [
          | copied no_key short ret_is holds times_is ↦ inl (length input, ret_is, short)
          | dropped why ret_is out_is ↦ inr (LongNumber-of_StampFails r.times h why)
          | stamped times result is_stamped short ret_is holds times_is ↦
              inl (length result, ret_is, short)
        ],
      )
