-- ===== src/Tests/Servers.antt =====
-- src/bridge_server.cpp and src/controller_receiver.cpp on a concrete frame.
use imx8mp_pipe_line_setup.Prelude.{
  ℕ, ◌≡◌, refl, ◌⊎◌, true, Option, none, some, [], ◌∷◌, ◌++◌, arith, take, drop, replicate,
  length-replicate, Bytes,
}
use imx8mp_pipe_line_setup.Prelude.Int.{ℤ, pos}
use imx8mp_pipe_line_setup.Memory.Pieces.{concat}
use imx8mp_pipe_line_setup.Double.Micro.{micro_double, Micro-IsOrdered}
use imx8mp_pipe_line_setup.Double.Printing.{micro_stdio, micro_libm}
use imx8mp_pipe_line_setup.Frame.Extract.{bridge_extract_joystick}
use imx8mp_pipe_line_setup.Frame.Stamp.{Times}
use imx8mp_pipe_line_setup.Frame.Stamp.Outcome.{StampFails}
use imx8mp_pipe_line_setup.Server.{
  Server, Forwarded, max_bridged_frame_len, infer, bridge_server_start, bridge_server_forward,
  callback_icu,
}
use imx8mp_pipe_line_setup.Server
use imx8mp_pipe_line_setup.Server.Outcome.{IsServer, ForwardOutcome}
use imx8mp_pipe_line_setup.Server.Forward.{bridge_server_forward-ForwardOutcome}
use imx8mp_pipe_line_setup.Receiver.{Receiver, receive, Handled, begin_message, callback_controller}
use imx8mp_pipe_line_setup.Receiver.Fragment.{received_so_far}
use imx8mp_pipe_line_setup.Receiver.Safety.{IsReceiver, callback_controller-IsReceiver}
use imx8mp_pipe_line_setup.Receiver.Message.{deliver, Delivers, deliver-Delivers, deliver-tail}
use imx8mp_pipe_line_setup.Bridge.{icu, turn, Steps, done, step, IsStarted}
use imx8mp_pipe_line_setup.Bridge.Reachable.{Steps-safe, Steps-wake}
use imx8mp_pipe_line_setup.Tests.{
  frame, interpreter, sysfs, server, server-IsServer, session, session-IsSession, receiver,
  receiver-IsReceiver, length-storage,
}

abbrev received : ℤ
received = pos 2_000_000

abbrev forward : ℤ
forward = pos 2_100_000

bridge_server_forward-ForwardOutcome_example :
    let (motor_out, motor') = infer interpreter (bridge_extract_joystick frame) server.motor in
    (f : Forwarded ℤ ℕ) × (bridge_server_forward interpreter frame received forward server ≡ some f)
    × IsServer f.server
    × ForwardOutcome frame received forward motor_out (record server { motor = motor' }) f
bridge_server_forward-ForwardOutcome_example =
    bridge_server_forward-ForwardOutcome Micro-IsOrdered interpreter frame received forward server
      server-IsServer

callback_controller-IsReceiver_example :
    (h : Handled ℤ ℕ) × (callback_controller interpreter sysfs received forward
        (receive true true frame)
        receiver
      ≡ some h)
    × IsReceiver h.receiver
    × (h.receiver.server.context ≡ receiver.server.context)
    × (h.receiver.server.protocol ≡ receiver.server.protocol)
callback_controller-IsReceiver_example =
    callback_controller-IsReceiver Micro-IsOrdered interpreter sysfs received forward
      (receive true true frame) receiver receiver-IsReceiver

-- The frame in two fragments.
deliver-Delivers_example :
    Delivers interpreter sysfs received forward
      (received_so_far (begin_message true receiver.session)
        ++ (take 20 frame ++ concat (drop 20 frame ∷ [])))
      receiver
      (deliver interpreter sysfs received forward true
        (take 20 frame)
        (drop 20 frame ∷ [])
        receiver)
unfolding begin_message
deliver-Delivers_example =
    deliver-Delivers interpreter sysfs received forward Micro-IsOrdered true (take 20 frame)
      (drop 20 frame ∷ []) receiver receiver-IsReceiver (omega arith)

abbrev long : Bytes
long = replicate 600 0

deliver-tail_example :
    Delivers interpreter sysfs received forward
      (frame ++ concat [])
      receiver
      (deliver interpreter sysfs received forward true long (frame ∷ []) receiver)
unfolding begin_message
deliver-tail_example =
    deliver-tail interpreter sysfs received forward Micro-IsOrdered true long frame [] receiver
      receiver-IsReceiver (omega (arith, length-replicate {A = ℕ} 600 0)) (omega arith)

abbrev started : Receiver ℤ ℕ
started = record receiver { server = bridge_server_start 1 server }

started-IsStarted : IsStarted started
unfolding bridge_server_start
started-IsStarted = record {
  session = session-IsSession;
  storage = length-storage;
  context = 1;
  before = server;
  started = refl;
}

-- A client connects.
abbrev connected : Receiver ℤ ℕ
connected = record started {
  server = (callback_icu 5 (λ b. pos 0) Server.established started.server).server;
}

connects : Steps interpreter sysfs started connected
connects = step started (done refl) (icu 5 (λ b. pos 0) Server.established refl)

Steps-safe_example :
    IsReceiver connected
    × (h : Handled ℤ ℕ) × (callback_controller interpreter sysfs received forward
          (receive true true frame)
          connected
        ≡ some h)
Steps-safe_example =
    Steps-safe Micro-IsOrdered interpreter sysfs started connected received forward
      (receive true true frame) started-IsStarted connects

connected-IsReceiver : IsReceiver connected
unfolding bridge_server_start callback_icu
connected-IsReceiver = record {
  session = session-IsSession;
  server = record { storage = length-storage; within = omega arith };
}

-- Another controller's turn.
turned :
    Steps interpreter sysfs connected (record connected { session = record session { len = 3 } })
turned = step connected (done refl) (
    turn (record session { len = 3 })
      (record { storage = session-IsSession.storage; within = omega arith }) refl)

Steps-wake_example :
    (f : Forwarded ℤ ℕ) × (bridge_server_forward interpreter frame received forward connected.server
      ≡ some f)
    × (((times : Option (Times ℤ)) × StampFails frame received forward max_bridged_frame_len times
          × (f.wake ≡ none))
        ⊎ (f.wake ≡ some (some 1, 5)))
unfolding bridge_server_start callback_icu
Steps-wake_example =
    Steps-wake Micro-IsOrdered interpreter sysfs connected
      (record connected { session = record session { len = 3 } }) 1 5 frame received forward
      connected-IsReceiver refl refl turned
