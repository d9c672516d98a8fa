-- ===== src/Receiver/Message.antt =====
-- A message in several fragments, from the first to the final one.
use mathlib.Core.Path.{subst}
use imx8mp_pipe_line_setup.Prelude.{
  ◌+◌, ◌≤◌, ◌<◌, ◌≡◌, refl, sym, ap, ◌∙◌, Bool, true, false, Option, some, List, [], ◌∷◌, ◌++◌,
  arith, >>=-some, ◌>>=◌, length, Bytes, append-nil, append_assoc, length-append,
}
use imx8mp_pipe_line_setup.Memory.Pieces.{concat}
use imx8mp_pipe_line_setup.Double.{Double, Libm, Stdio, IsOrdered}
use imx8mp_pipe_line_setup.Motor.{Interpreter}
use imx8mp_pipe_line_setup.Gpio.{Sysfs, gpio_toggle_set}
use imx8mp_pipe_line_setup.Server.{Forwarded, bridge_server_forward}
use imx8mp_pipe_line_setup.Server.Forward.{bridge_server_forward-ForwardOutcome}
use imx8mp_pipe_line_setup.Receiver.Fragment.{
  received_so_far, append_fragment-drops, append_fragment-fits,
}
use imx8mp_pipe_line_setup.Receiver.Safety.{IsReceiver, begin_message-IsSession}
use imx8mp_pipe_line_setup.Receiver.{
  Receiver, receive, Handled, max_controller_frame_len, begin_message, forward_frame,
  callback_controller,
}

module _ {W V : Type 0} ⦃d : Double W⦄ ⦃s : Stdio W⦄ ⦃m : Libm W⦄ (interpreter : Interpreter V)
    (sysfs : Sysfs) (received forward : W) where
  -- The callbacks on a fragment and those after it, of which the last is final.
  pub deliver : Bool → Bytes → List Bytes → Receiver W V → Option (Handled W V)
  deliver first bytes [] r =
      callback_controller interpreter sysfs received forward (receive first true bytes) r
  deliver first bytes (next ∷ rest) r = do
    h ← callback_controller interpreter sysfs received forward (receive first false bytes) r
    deliver false next rest h.receiver

  -- One forwarded frame, between the two edges of the marker, and an empty session behind it.
  pub record Delivers (frame : Bytes) (r : Receiver W V) (o : Option (Handled W V)) : Type 0 where
    pub f : Forwarded W V
    pub h : Handled W V
    pub f_is : bridge_server_forward interpreter frame received forward r.server ≡ some f
    pub returns : o ≡ some h
    pub forwarded_is : h.forwarded ≡ some f
    pub server_is : h.receiver.server ≡ f.server
    pub gpio_is : h.receiver.gpio ≡ gpio_toggle_set sysfs false (gpio_toggle_set sysfs true r.gpio)
    pub session_is : h.receiver.session.len ≡ 0

  module _ (laws : IsOrdered W) where
    forward_frame-Delivers :
        (frame : Bytes) (r : Receiver W V)
        → IsReceiver r
        → received_so_far r.session ≡ frame
        → Delivers frame r (forward_frame interpreter sysfs received forward r)
    unfolding forward_frame
    forward_frame-Delivers frame r i e =
        let (f, done, _, _) =
          bridge_server_forward-ForwardOutcome laws interpreter frame received forward r.server
            i.server in
        record {
          f = f;
          h = _;
          f_is = done;
          returns =
              >>=-some _
                (ap (λ t. bridge_server_forward interpreter t received forward r.server) e ∙ done)
                refl;
          forwarded_is = refl;
          server_is = refl;
          gpio_is = refl;
          session_is = refl;
        }

    Delivers-eq :
        {frame : Bytes} {r r' : Receiver W V} {o o' : Option (Handled W V)}
        → r.server ≡ r'.server
        → r.gpio ≡ r'.gpio
        → o' ≡ o
        → Delivers frame r o
        → Delivers frame r' o'
    Delivers-eq {frame = frame} es eg eo v = record {
      f = v.f;
      h = v.h;
      f_is =
          ap (λ server. bridge_server_forward interpreter frame received forward server) (sym es)
          ∙ v.f_is;
      returns = eo ∙ v.returns;
      forwarded_is = v.forwarded_is;
      server_is = v.server_is;
      gpio_is = v.gpio_is ∙ ap (λ g. gpio_toggle_set sysfs false (gpio_toggle_set sysfs true g)) eg;
      session_is = v.session_is;
    }

    -- The fragments of a message, at most 512 bytes in all with what has been received before them, are
    -- forwarded by the callback on the final one as one frame, whole and in order, with the server as it
    -- was before the first, between the two edges of the marker. No callback faults, and the session is
    -- then empty. The state's buffers have their sizes, and the double has IEEE 754's order.
    pub deliver-Delivers :
        (first : Bool) (bytes : Bytes) (rest : List Bytes) (r : Receiver W V)
        → IsReceiver r
        → (begin_message first r.session).len + length (bytes ++ concat rest)
          ≤ max_controller_frame_len
        → Delivers
            (received_so_far (begin_message first r.session) ++ (bytes ++ concat rest))
            r
            (deliver first bytes rest r)
    unfolding deliver callback_controller begin_message
    deliver-Delivers first bytes [] r i fits =
        let begun = record r { session = begin_message first r.session } in
        let so_far = received_so_far begun.session in
        let (session, e, _, text_is, j) =
          append_fragment-fits interpreter sysfs true bytes received forward begun
            (begin_message-IsSession first r.session i.session)
            (omega (arith, length-append bytes [])) in
        Delivers-eq refl refl e (
          forward_frame-Delivers (so_far ++ (bytes ++ [])) (record begun { session = session })
            (record { session = j; server = i.server })
            (text_is ∙ ap (λ t. so_far ++ t) (sym (append-nil bytes))))
    deliver-Delivers first bytes (next ∷ rest) r i fits =
        let begun = record r { session = begin_message first r.session } in
        let so_far = received_so_far begun.session in
        let (session, e, len_is, text_is, j) =
          append_fragment-fits interpreter sysfs false bytes received forward begun
            (begin_message-IsSession first r.session i.session)
            (omega (arith, length-append bytes (concat (next ∷ rest)))) in
        let r' = record begun { session = session } in
        let later =
          deliver-Delivers false next rest r' (record { session = j; server = i.server })
            (omega (arith, len_is, length-append bytes (concat (next ∷ rest)))) in
        let frame_is =
          ap (λ t. t ++ (next ++ concat rest)) text_is
          ∙ append_assoc so_far bytes (next ++ concat rest) in
        Delivers-eq refl refl (>>=-some _ e refl)
          (subst (λ frame. Delivers frame r' (deliver false next rest r')) frame_is later)

    -- After a fragment that does not fit the buffer and is not final the session is empty: the fragments
    -- that follow it in the message, if at most 512 bytes in all, are forwarded as a frame of their own.
    -- The state's buffers have their sizes, and the double has IEEE 754's order.
    pub deliver-tail :
        (first : Bool) (long bytes : Bytes) (rest : List Bytes) (r : Receiver W V)
        → IsReceiver r
        → max_controller_frame_len < (begin_message first r.session).len + length long
        → length (bytes ++ concat rest) ≤ max_controller_frame_len
        → Delivers (bytes ++ concat rest) r (deliver first long (bytes ∷ rest) r)
    unfolding deliver callback_controller begin_message
    deliver-tail first long bytes rest r i over fits =
        let begun = record r { session = begin_message first r.session } in
        let e = append_fragment-drops interpreter sysfs false long received forward begun over in
        Delivers-eq refl refl (>>=-some _ e refl) (
          deliver-Delivers false bytes rest
            (record begun { session = record begun.session { len = 0 } })
            (record {
              session = record {
                storage = (begin_message-IsSession first r.session i.session).storage;
                within = omega arith;
              };
              server = i.server;
            })
            (omega arith))
