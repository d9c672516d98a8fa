-- ===== src/Main/Program.antt =====
-- src/main.cpp from the command line to the end: the set-up, the service loop, and what follows it.
use mathlib.Core.Path.{subst}
use imx8mp_pipe_line_setup.Prelude.{
  arith, Bool, Bool-cases, [], ◌≡◌, refl, sym, ap, ◌∙◌, true, false, not, ◌⊎◌, inl, inr, Option,
  none, some, List, Bytes, ◌>>=◌, if◌then◌else◌, >>=-some,
}
use imx8mp_pipe_line_setup.Prelude.Int.{ℤ, pos}
use imx8mp_pipe_line_setup.Double.{Double, Libm, Stdio, IsOrdered}
use imx8mp_pipe_line_setup.Receiver.{Receiver}
use imx8mp_pipe_line_setup.Receiver.Fragment.{IsSession}
use imx8mp_pipe_line_setup.Receiver.Safety.{IsReceiver}
use imx8mp_pipe_line_setup.Bridge.Reachable.{IsStarted-IsReceiver}
use imx8mp_pipe_line_setup.Service.{
  Event, Output, Process, handle_signal, lws_service, serve, shut_down,
}
use imx8mp_pipe_line_setup.Service.Loop.{signalled, served, serve-stopped, serve-served}
use imx8mp_pipe_line_setup.Main.{Options, Machine, main}
use imx8mp_pipe_line_setup.Main.Start.{exits, runs, main-MainOutcome}

-- How the program stands: it has ended in its set-up, it is still in its loop, or it has ended behind it.
pub data Standing (W V : Type 0) : Type 0 where
  exited : ℤ → Standing W V
  serving : Process W V → List Output → Standing W V
  finished : ℤ → Process W V → List Output → Standing W V

module _ {W V : Type 0} where
  -- The statics behind the set-up; every connection gets storage of the same size.
  abbrev pub process_of : Receiver W V → Process W V
  process_of r = record {
    sessions = λ connection. r.session;
    server = r.server;
    gpio = r.gpio;
    running = true;
  }

  -- Where a signal has come since the handler was installed, the loop begins with `s_running` cleared.
  abbrev pub entered : Bool → Receiver W V → Process W V
  entered early r = if early then handle_signal (process_of r) else process_of r

  -- The test of the loop, after the calls that were served.
  pub leave_loop : Process W V × List Output → Standing W V
  leave_loop (p, outputs) =
      if p.running
      then serving p outputs
      else (let (status, p') = shut_down p in finished status p' outputs)

module _ {W V : Type 0} ⦃d : Double W⦄ ⦃s : Stdio W⦄ ⦃m : Libm W⦄ where
  pub enter_loop :
      Machine V → Bool → List (List Event) → ℤ ⊎ (Options × Receiver W V) → Option (Standing W V)
  unfolding leave_loop serve shut_down
  enter_loop machine early calls (inl status) = some (exited status)
  enter_loop machine early calls (inr (options, r)) = do
    after ←
        serve (machine.interpreter options.model_path options.delegate_path) machine.sysfs calls
          (entered early r)
    some (leave_loop after)

  -- The program on a command line, with a signal before the loop or none, and the events of each call of
  -- `lws_service`. A memory fault is `none`.
  unfoldable pub program : Machine V → List Bytes → Bool → List (List Event) → Option (Standing W V)
  unfolding enter_loop main
  program machine args early calls = enter_loop machine early calls (main machine args)

  -- A process that stops has closed its log and has nothing else changed since the last event.
  abbrev closed_log : Process W V → Process W V
  closed_log p = record p { server = record p.server { log = none } }

  -- It does not fault, and ends with the status 1 in its set-up, or with 0 before the first call of the
  -- library or after the one in which the first signal arrives; until then it serves.
  pub data ProgramOutcome (machine : Machine V) (args : List Bytes) (early : Bool)
      (calls : List (List Event)) : Option (Standing W V) → Type 0 where
    refused :
        {o : Option (Standing W V)}
        → main {W = W} machine args ≡ inl (pos 1)
        → o ≡ some (exited (pos 1))
        → ProgramOutcome machine args early calls o
    interrupted :
        {o : Option (Standing W V)} (options : Options) (r : Receiver W V)
        → main machine args ≡ inr (options, r)
        → early ≡ true
        → o ≡ some (finished (pos 0) (closed_log (handle_signal (process_of r))) [])
        → ProgramOutcome machine args early calls o
    ended :
        {o : Option (Standing W V)} (options : Options) (r : Receiver W V) (p : Process W V)
        (outputs : List Output)
        → main machine args ≡ inr (options, r)
        → early ≡ false
        → signalled calls ≡ true
        → lws_service
            (machine.interpreter options.model_path options.delegate_path)
            machine.sysfs
            (served calls)
            (process_of r)
          ≡ some (p, outputs)
        → o ≡ some (finished (pos 0) (closed_log p) outputs)
        → ProgramOutcome machine args early calls o
    serves :
        {o : Option (Standing W V)} (options : Options) (r : Receiver W V) (p : Process W V)
        (outputs : List Output)
        → main machine args ≡ inr (options, r)
        → early ≡ false
        → signalled calls ≡ false
        → lws_service
            (machine.interpreter options.model_path options.delegate_path)
            machine.sysfs
            (served calls)
            (process_of r)
          ≡ some (p, outputs)
        → o ≡ some (serving p outputs)
        → ProgramOutcome machine args early calls o

  leave_loop-stopped :
      (p : Process W V) (outputs : List Output)
      → p.running ≡ false
      → leave_loop (p, outputs) ≡ finished (pos 0) (closed_log p) outputs
  unfolding leave_loop shut_down
  leave_loop-stopped p outputs stopped = ground arith

  leave_loop-running :
      (p : Process W V) (outputs : List Output)
      → p.running ≡ true
      → leave_loop (p, outputs) ≡ serving p outputs
  unfolding leave_loop
  leave_loop-running p outputs still = ground arith

  module _ (laws : IsOrdered W) (machine : Machine V) (early : Bool)
      (calls : List (List Event)) where
    -- The loop, if no signal has come before it.
    calls-ProgramOutcome :
        (args : List Bytes) (options : Options) (r : Receiver W V)
        → main machine args ≡ inr (options, r)
        → IsReceiver r
        → early ≡ false
        → ProgramOutcome machine args early calls
            (enter_loop machine false calls (inr (options, r)))
    unfolding enter_loop
    calls-ProgramOutcome args options r e i not_before =
        let ((p, outputs), done, run, j, running) =
          serve-served (machine.interpreter options.model_path options.delegate_path) machine.sysfs
            laws calls (process_of r)
            (record { sessions = λ connection. i.session; server = i.server }) refl in
        elim (Bool-cases (signalled calls)) [
          | inl stops ↦
              let stopped : p.running ≡ false = running ∙ ap not stops in
              ended options r p outputs e not_before stops run
                (>>=-some _ done (ap some (leave_loop-stopped p outputs stopped)))
          | inr goes_on ↦
              let still : p.running ≡ true = running ∙ ap not goes_on in
              serves options r p outputs e not_before goes_on run
                (>>=-some _ done (ap some (leave_loop-running p outputs still)))
        ]

    enter_loop-ProgramOutcome :
        (args : List Bytes) (options : Options) (r : Receiver W V)
        → main machine args ≡ inr (options, r)
        → IsReceiver r
        → ProgramOutcome machine args early calls
            (enter_loop machine early calls (inr (options, r)))
    unfolding enter_loop
    enter_loop-ProgramOutcome args options r e i = elim (Bool-cases early) [
      | inl before ↦
          let stopped =
            serve-stopped (machine.interpreter options.model_path options.delegate_path)
              machine.sysfs calls (handle_signal (process_of r)) refl in
          interrupted options r e before (
            rw before (
              >>=-some _ stopped
                (ap some (leave_loop-stopped (handle_signal (process_of r)) [] refl))))
      | inr not_before ↦
          subst
            (λ b.
              ProgramOutcome machine args early calls
                (enter_loop machine b calls (inr (options, r))))
            (sym not_before) (calls-ProgramOutcome args options r e i not_before)
    ]

    -- The program, on any command line and any callbacks and signals in each call of lws_service, does
    -- not fault. It ends with the status 1 in its set-up; or, after a signal that came before the loop,
    -- with the status 0, the log closed and no callback; or its loop ends with the call in which the
    -- first signal arrives, not before it, and the program with the status 0 and the log closed; or, if
    -- no signal arrives, it has served all callbacks. The storage of a session has the size the receiver
    -- asks for, and the double has IEEE 754's order.
    pub program-ProgramOutcome :
        (args : List Bytes)
        → IsSession machine.session
        → ProgramOutcome machine args early calls (program machine args early calls)
    unfolding program enter_loop
    program-ProgramOutcome args session = elim (main-MainOutcome machine session args) [
      | exits e ↦ refused e (ap (enter_loop machine early calls) e)
      | runs options r variables e accepted usable motor_is started ↦
          subst (λ o. ProgramOutcome machine args early calls (enter_loop machine early calls o))
            (sym e)
            (enter_loop-ProgramOutcome args options r e (
              IsStarted-IsReceiver laws
                (machine.interpreter options.model_path options.delegate_path) machine.sysfs r
                started))
    ]
