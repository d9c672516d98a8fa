-- ===== src/Service/Loop.antt =====
-- The loop ends with the call of the library in which a signal arrives, and not before.
use imx8mp_pipe_line_setup.Prelude.{
  ◌≡◌, refl, sym, ap, ◌∙◌, Bool, true, false, not, ◌&&◌, ◌||◌, inl, inr, Option, some, List, [],
  ◌∷◌, ◌++◌, arith, Bool-cases, if◌then◌else◌, ◌>>=◌, >>=-some, >>=-eq-some, some_inj, append_assoc,
}
use imx8mp_pipe_line_setup.Double.{Double, Libm, Stdio, IsOrdered}
use imx8mp_pipe_line_setup.Motor.{Interpreter}
use imx8mp_pipe_line_setup.Gpio.{Sysfs}
use imx8mp_pipe_line_setup.Receiver.{callback_controller}
use imx8mp_pipe_line_setup.Service.{
  Event, signal, controller, icu, Output, Process, receiver_of, stored, forwards, dispatch,
  lws_service, serve, current_epoch_seconds,
}
use imx8mp_pipe_line_setup.Service.Fragment.{IsProcess}
use imx8mp_pipe_line_setup.Service.Refines.{lws_service-refines}

abbrev pub is_signal : Event → Bool
is_signal signal = true
is_signal (controller connection received forward reason) = false
is_signal (icu protocol lws_write reason) = false

abbrev pub has_signal : List Event → Bool
has_signal [] = false
has_signal (event ∷ events) = is_signal event || has_signal events

abbrev pub signalled : List (List Event) → Bool
signalled [] = false
signalled (events ∷ calls) = has_signal events || signalled calls

-- The events up to the end of the call in which the first signal arrives.
abbrev pub served : List (List Event) → List Event
served [] = []
served (events ∷ calls) = events ++ (if has_signal events then [] else served calls)

module _ {W V : Type 0} ⦃d : Double W⦄ ⦃s : Stdio W⦄ ⦃m : Libm W⦄ (interpreter : Interpreter V)
    (sysfs : Sysfs) where
  running_of : (q r : Process W V × List Output) → some q ≡ some r → r.0.running ≡ q.0.running
  running_of q r e = ap (λ t. t.0.running) (sym (some_inj e))

  dispatch-running :
      (event : Event) (p : Process W V) (r : Process W V × List Output)
      → dispatch interpreter sysfs event p ≡ some r
      → r.0.running ≡ (not (is_signal event) && p.running)
  unfolding dispatch
  dispatch-running signal p r e = running_of _ r e
  dispatch-running (controller connection received forward reason) p r e =
      let (h, done, e') =
        >>=-eq-some
          (callback_controller interpreter sysfs (current_epoch_seconds received)
            (current_epoch_seconds forward) reason (receiver_of connection p))
          (λ h. some (stored connection h.receiver p, forwards h.forwarded)) e in
      running_of _ r e'
  dispatch-running (icu protocol lws_write reason) p r e = running_of _ r e

  -- The first event of a run that does not fault, and those after it.
  split_events :
      (event : Event) (events : List Event) (p : Process W V) (r : Process W V × List Output)
      → lws_service interpreter sysfs (event ∷ events) p ≡ some r
      → (r' : Process W V × List Output) × (dispatch interpreter sysfs event p ≡ some r')
        × (r'' : Process W V × List Output) × (lws_service interpreter sysfs events r'.0 ≡ some r'')
        × (◌≡◌ {A = Option (Process W V × List Output)} (some (r''.0, r'.1 ++ r''.1)) (some r))
  unfolding lws_service
  split_events event events p r e =
      let (r', done, e') =
        >>=-eq-some (dispatch interpreter sysfs event p)
          (λ (r' : Process W V × List Output).
            lws_service interpreter sysfs events r'.0 >>= λ (r'' : Process W V × List Output).
            some (r''.0, r'.1 ++ r''.1))
          e in
      let (r'', done', e'') =
        >>=-eq-some (lws_service interpreter sysfs events r'.0)
          (λ (r'' : Process W V × List Output). some (r''.0, r'.1 ++ r''.1)) e' in
      (r', done, r'', done', e'')

  lws_service-running :
      (events : List Event) (p : Process W V) (r : Process W V × List Output)
      → lws_service interpreter sysfs events p ≡ some r
      → r.0.running ≡ (not (has_signal events) && p.running)
  unfolding lws_service
  lws_service-running [] p r e = running_of _ r e
  lws_service-running (event ∷ events) p r e =
      let (r', done, r'', done', e'') = split_events event events p r e in
      let first = dispatch-running event p r' done in
      let later = lws_service-running events r'.0 r'' done' in
      let last = running_of _ r e'' in ground arith

  -- Two runs of events, one behind the other.
  lws_service-append :
      (xs ys : List Event) (p p' p'' : Process W V) (outputs later : List Output)
      → lws_service interpreter sysfs xs p ≡ some (p', outputs)
      → lws_service interpreter sysfs ys p' ≡ some (p'', later)
      → lws_service interpreter sysfs (xs ++ ys) p ≡ some (p'', outputs ++ later)
  unfolding lws_service
  lws_service-append [] ys p p' p'' outputs later e e' =
      let same = some_inj e in
      ap (lws_service interpreter sysfs ys) (ap (λ t. t.0) same)
      ∙ e'
      ∙ ap (λ t. some (p'', t.1 ++ later)) same
  lws_service-append (event ∷ xs) ys p p' p'' outputs later e e' =
      let ((q, first), done, (q', rest), done', k) = split_events event xs p (p', outputs) e in
      let same = some_inj k in
      let there =
        lws_service-append xs ys q p' p'' rest later (done' ∙ ap (λ t. some (t.0, rest)) same) e' in
      >>=-some _ done (
        >>=-some _ there (
          ap (λ o. some (p'', o)) (sym (append_assoc first rest later))
          ∙ ap (λ t. some (p'', t.1 ++ later)) same))

  pub serve-stopped :
      (calls : List (List Event)) (p : Process W V)
      → p.running ≡ false
      → serve interpreter sysfs calls p ≡ some (p, [])
  unfolding serve
  serve-stopped [] p stopped = refl
  serve-stopped (events ∷ calls) p stopped = ground arith

  serve-running :
      (events : List Event) (calls : List (List Event)) (p p' : Process W V) (outputs : List Output)
      (r : Process W V × List Output)
      → p.running ≡ true
      → lws_service interpreter sysfs events p ≡ some (p', outputs)
      → serve interpreter sysfs calls p' ≡ some r
      → serve interpreter sysfs (events ∷ calls) p ≡ some (r.0, outputs ++ r.1)
  unfolding serve
  serve-running events calls p p' outputs r running e e' =
      rw (running, serve) (>>=-some _ e (>>=-some _ e' refl))

  module _ (laws : IsOrdered W) where
    -- The loop is the run of the events that it serves, and it goes on unless a signal has come.
    pub serve-served :
        (calls : List (List Event)) (p : Process W V)
        → IsProcess p
        → p.running ≡ true
        → (r : Process W V × List Output) × (serve interpreter sysfs calls p ≡ some r)
          × (lws_service interpreter sysfs (served calls) p ≡ some r)
          × IsProcess r.0
          × (r.0.running ≡ not (signalled calls))
    unfolding lws_service serve
    serve-served [] p i running = ((p, []), refl, refl, i, running)
    serve-served (events ∷ calls) p i running =
        let ((p', outputs), done, j, _) = lws_service-refines laws interpreter sysfs events p i in
        let after = lws_service-running events p (p', outputs) done in
        elim (Bool-cases (has_signal events)) [
          | inl stops ↦
              let stopped : p'.running ≡ false = ground arith in
              rw stops (
                (p', outputs ++ []),
                serve-running events calls p p' outputs (p', []) running done
                    (serve-stopped calls p' stopped),
                lws_service-append events [] p p' p' outputs [] done refl,
                j,
                stopped,
              )
          | inr goes_on ↦
              let still : p'.running ≡ true = ground arith in
              let (r, later, run, k, running_is) = serve-served calls p' j still in
              rw goes_on (
                (r.0, outputs ++ r.1),
                serve-running events calls p p' outputs r running done later,
                lws_service-append events (served calls) p p' r.0 outputs r.1 done run,
                k,
                running_is,
              )
        ]
