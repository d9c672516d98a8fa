-- ===== src/Service/Same.antt =====
-- States of the loop that a session of a controller cannot tell apart, step for step.
use mathlib.Core.Path.{ap₂}
use imx8mp_pipe_line_setup.Prelude.{
  ℕ, ◌≡◌, refl, sym, ap, ◌∙◌, inl, inr, Bool-cases, Bool, true, false, Option, none, some, List, [],
  ◌∷◌, ◌++◌, ◌==◌, ==_iff, ltb, if◌then◌else◌, length, Bytes, ◌>>=◌,
}
use imx8mp_pipe_line_setup.Double.{Double, Libm, Stdio}
use imx8mp_pipe_line_setup.Motor.{Interpreter}
use imx8mp_pipe_line_setup.Gpio.{Sysfs}
use imx8mp_pipe_line_setup.Server.Plain.{Sent, forward_text}
use imx8mp_pipe_line_setup.Server.Plain.Same.{SameSender, SameSent, forward_text-same}
use imx8mp_pipe_line_setup.Receiver.{max_controller_frame_len}
use imx8mp_pipe_line_setup.Service.{Output, wake, update, wakes}
use imx8mp_pipe_line_setup.Service.Spec.{Spec, delivered, spec_forward, spec_receive}

-- What a session depends on is the same.
pub record SameSpec {W V : Type 0} (connection : ℕ) (p q : Spec W V) : Type 0 where
  pub message : p.messages connection ≡ q.messages connection
  pub sender : SameSender p.sender q.sender

abbrev pub SameStep :
    {W V : Type 0} → ℕ → Option (Spec W V × List Output) → Option (Spec W V × List Output) → Type 0
SameStep connection none none = Unit
SameStep connection none (some r') = ⊥
SameStep connection (some r) none = ⊥
SameStep connection (some r) (some r') = SameSpec connection r.0 r'.0 × (r.1 ≡ r'.1)

update_here {ℓ} : {A : Type ℓ} (f : ℕ → A) (k : ℕ) (a : A) → update f k a k ≡ a
update_here f k a = let here : (k == k) ≡ true = (==_iff k k).1 refl in rw here refl

-- The outputs of an announced frame.
announcements : Option ((Option ℕ × ℕ) × Bytes) → List Output
announcements none = []
announcements (some ((context, protocol), text)) = wake context protocol text ∷ []

wakes-announcements :
    (w : Option (Option ℕ × ℕ)) (text : Bytes)
    → wakes w text ≡ announcements (w >>= λ woken. some (woken, text))
unfolding wakes announcements
wakes-announcements none text = refl
wakes-announcements (some (context, protocol)) text = refl

module _ {W V : Type 0} (connection : ℕ) where
  -- Two states in which the connection's text has just been set to the same bytes.
  pub set_message-same :
      (message : Bytes) (p q a b : Spec W V)
      → a.messages ≡ update p.messages connection message
      → b.messages ≡ update q.messages connection message
      → SameSender a.sender b.sender
      → SameSpec connection a b
  set_message-same message p q a b e e' same = record {
    message =
        ap (λ f. f connection) e
        ∙ update_here p.messages connection message
        ∙ sym (ap (λ f. f connection) e' ∙ update_here q.messages connection message);
    sender = same;
  }

  -- A step and the steps behind it.
  pub step-same :
      (o o' : Option (Spec W V × List Output))
      (run run' : Spec W V → Option (Spec W V × List Output))
      → ((p q : Spec W V) → SameSpec connection p q → SameStep connection (run p) (run' q))
      → SameStep connection o o'
      → SameStep connection
          (o >>= λ r. run r.0 >>= λ r'. some (r'.0, r.1 ++ r'.1))
          (o' >>= λ r. run' r.0 >>= λ r'. some (r'.0, r.1 ++ r'.1))
  step-same none none run run' later e = tt
  step-same none (some r') run run' later e = absurd e
  step-same (some r) none run run' later e = absurd e
  step-same (some r) (some r') run run' later e = behind (run r.0) (run' r'.0) (later r.0 r'.0 e.0)
    where
      behind :
          (o o' : Option (Spec W V × List Output))
          → SameStep connection o o'
          → SameStep connection
              (o >>= λ t. some (t.0, r.1 ++ t.1))
              (o' >>= λ t. some (t.0, r'.1 ++ t.1))
      behind none none k = tt
      behind none (some t') k = absurd k
      behind (some t) none k = absurd k
      behind (some t) (some t') k = (k.0, ap₂ ◌++◌ e.1 k.1)

module _ {W V : Type 0} ⦃d : Double W⦄ ⦃s : Stdio W⦄ ⦃m : Libm W⦄ (interpreter : Interpreter V)
    (sysfs : Sysfs) (connection : ℕ) where
  delivered-same :
      (p q : Spec W V) (o o' : Option (Sent W V))
      → SameSent o o'
      → SameStep connection
          (o >>= λ sent. some (delivered interpreter sysfs connection p sent))
          (o' >>= λ sent. some (delivered interpreter sysfs connection q sent))
  unfolding delivered
  delivered-same p q none none e = tt
  delivered-same p q none (some t) e = absurd e
  delivered-same p q (some s) none e = absurd e
  delivered-same p q (some s) (some t) e = (
    set_message-same connection [] p q _ _ refl refl e.0,
    wakes-announcements s.wake s.sender.latest
        ∙ ap announcements e.1
        ∙ sym (wakes-announcements t.wake t.sender.latest),
  )

  -- A message, the same in both.
  pub spec_receive-same :
      (final : Bool) (message : Bytes) (received forward : W) (p q : Spec W V)
      → SameSpec connection p q
      → SameStep connection
          (spec_receive interpreter sysfs connection final message received forward p)
          (spec_receive interpreter sysfs connection final message received forward q)
  unfolding spec_receive
  spec_receive-same final message received forward p q same =
      elim (Bool-cases (ltb max_controller_frame_len (length message))) [
        | inl over ↦ rw over (set_message-same connection [] p q _ _ refl refl same.sender, refl)
        | inr under ↦ rw under (on_final final)
      ]
    where
      on_final :
          (final : Bool)
          → SameStep {W = W} {V = V} connection
              (if final
                then spec_forward interpreter sysfs connection message received forward p
                else some (record p { messages = update p.messages connection message }, []))
              (if final
                then spec_forward interpreter sysfs connection message received forward q
                else some (record q { messages = update q.messages connection message }, []))
      on_final true =
          delivered-same p q (forward_text interpreter message received forward p.sender)
            (forward_text interpreter message received forward q.sender)
            (forward_text-same interpreter message received forward p.sender q.sender same.sender)
      on_final false = (set_message-same connection message p q _ _ refl refl same.sender, refl)
