-- ===== src/Service/Latest.antt =====
-- What a client is sent: the text that was announced to it last.
use mathlib.Core.Path.{subst}
use imx8mp_pipe_line_setup.Prelude.{ℕ, ◌≡◌, refl, sym, some, List, [], ◌∷◌, ◌++◌, Bytes}
use imx8mp_pipe_line_setup.Double.{Double, Libm, Stdio, IsOrdered}
use imx8mp_pipe_line_setup.Motor.{Interpreter}
use imx8mp_pipe_line_setup.Gpio.{Sysfs}
use imx8mp_pipe_line_setup.Server.Plain.{view, sent_after}
use imx8mp_pipe_line_setup.Service.{Event, Output, wake, write, wakes, Process, lws_service}
use imx8mp_pipe_line_setup.Service.Fragment.{IsProcess}
use imx8mp_pipe_line_setup.Service.Kept.{IsKept, lws_service-IsKept}

-- From a latest text to another: an announcement brings the next one, and a write sends the one at hand.
abbrev pub Current : Bytes → List Output → Bytes → Type 0
Current text [] last = text ≡ last
Current text (wake context protocol next ∷ outputs) last = Current next outputs last
Current text (write bytes ∷ outputs) last = (bytes ≡ text) × Current text outputs last

Current-append :
    (text next last : Bytes) (xs ys : List Output)
    → Current text xs next
    → Current next ys last
    → Current text (xs ++ ys) last
Current-append text next last [] ys h k = subst (λ t. Current t ys last) (sym h) k
Current-append text next last (wake context protocol t ∷ xs) ys h k =
    Current-append t next last xs ys h k
Current-append text next last (write bytes ∷ xs) ys h k =
    (h.0, Current-append text next last xs ys h.1 k)

module _ {W V : Type 0} ⦃d : Double W⦄ ⦃s : Stdio W⦄ (known : ℕ) where
  Current-IsKept :
      IsKept {W = W} {V = V} known (λ p ms outputs q. Current p.latest outputs q.latest)
  unfolding sent_after wakes
  Current-IsKept = record {
    still = λ p q latest stats log. sym latest;
    behind = λ p q r ms ns xs ys. Current-append p.latest q.latest r.latest xs ys;
    written = λ p. (refl, refl);
    dropped = λ message p stamp. refl;
    published = λ message motor_out body times p kept e stamp. rw e refl;
  }

module _ {W V : Type 0} ⦃d : Double W⦄ ⦃s : Stdio W⦄ ⦃m : Libm W⦄ (interpreter : Interpreter V)
    (sysfs : Sysfs) (known : ℕ) where
  -- Once the clients' protocol is known, whatever callbacks and signals come, all that is written to a
  -- client is the whole text that was announced last, or what the payload held at first if none has been
  -- announced yet; and this is what the payload holds at the end. The buffers have their sizes, and the
  -- double has IEEE 754's order.
  pub lws_service-Current :
      IsOrdered W
      → (events : List Event) (p : Process W V) → IsProcess p
      → p.server.protocol ≡ some known
      → (r : Process W V × List Output) × (lws_service interpreter sysfs events p ≡ some r)
        × Current (view p.server).latest r.1 (view r.0.server).latest
  lws_service-Current laws events p i e =
      lws_service-IsKept interpreter sysfs known _ (Current-IsKept known) laws events p i e
