-- ===== src/Receiver/Fragment.antt =====
-- One fragment of a message: it is put behind those before it, or the message so far is dropped.
use imx8mp_pipe_line_setup.Prelude.{
  ◌+◌, ◌≤◌, ◌<◌, ◌≡◌, refl, sym, ap, ◌∙◌, Bool, some, ◌++◌, arith, lt→ltb, le→ltb, >>=-some,
  if◌then◌else◌, length, take, drop, take_all, take-append, Bytes, append_assoc, length-append,
  length-take,
}
use imx8mp_pipe_line_setup.Memory.{memcpy_fits, length_written}
use imx8mp_pipe_line_setup.Double.{Double, Libm, Stdio}
use imx8mp_pipe_line_setup.Motor.{Interpreter}
use imx8mp_pipe_line_setup.Gpio.{Sysfs}
use imx8mp_pipe_line_setup.Receiver.{
  Session, Receiver, handled, max_controller_frame_len, forward_frame, append_fragment,
}

-- The buffer of a session has its declared size, and what has been received lies within it.
pub record IsSession (session : Session) : Type 0 where
  pub storage : length session.buf ≡ max_controller_frame_len
  pub within : session.len ≤ max_controller_frame_len

-- What has been received of a message.
abbrev pub received_so_far : Session → Bytes
received_so_far session = take session.len session.buf

module _ {W V : Type 0} ⦃d : Double W⦄ ⦃s : Stdio W⦄ ⦃m : Libm W⦄ (interpreter : Interpreter V)
    (sysfs : Sysfs) (final : Bool) (bytes : Bytes) (received forward : W) (r : Receiver W V) where
  pub append_fragment-drops :
      max_controller_frame_len < r.session.len + length bytes
      → append_fragment interpreter sysfs final bytes received forward r
        ≡ some (handled (record r { session = record r.session { len = 0 } }))
  unfolding append_fragment
  append_fragment-drops over =
      rw (lt→ltb max_controller_frame_len (r.session.len + length bytes) over) refl

  pub append_fragment-fits :
      IsSession r.session
      → r.session.len + length bytes ≤ max_controller_frame_len
      → (session : Session) × (append_fragment interpreter sysfs final bytes received forward r ≡ (
          if final
          then forward_frame interpreter sysfs received forward (record r { session = session })
          else some (handled (record r { session = session }))))
        × (session.len ≡ r.session.len + length bytes)
        × (received_so_far session ≡ received_so_far r.session ++ bytes)
        × IsSession session
  unfolding append_fragment
  append_fragment-fits i fits =
      let buf = r.session.buf in
      let len = r.session.len in
      let n = length bytes in
      let room : len + n ≤ length buf = omega (arith, i.storage) in
      let copied = take len buf ++ (take n bytes ++ drop (len + n) buf) in
      let text_is : copied ≡ (take len buf ++ bytes) ++ drop (len + n) buf =
        ap (λ b. take len buf ++ (b ++ drop (len + n) buf)) (take_all n bytes (omega arith))
        ∙ sym (append_assoc (take len buf) bytes (drop (len + n) buf)) in
      (
        record { buf = copied; len = len + n },
        rw (le→ltb max_controller_frame_len (len + n) fits)
            (>>=-some _ (memcpy_fits buf len bytes n (omega arith) room) refl),
        refl,
        ap (take (len + n)) text_is
            ∙ take-append (len + n) (take len buf ++ bytes) (drop (len + n) buf)
                (omega (arith, length-append (take len buf) bytes, length-take len buf)),
        record {
          storage = length_written buf len bytes n (omega arith) room ∙ i.storage;
          within = fits;
        },
      )
