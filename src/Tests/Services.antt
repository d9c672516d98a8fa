-- ===== src/Tests/Services.antt =====
-- The service loop at the end of src/main.cpp, from events to what is sent, on concrete data.
use imx8mp_pipe_line_setup.Prelude.{
  length, ℕ, ◌≡◌, refl, true, false, some, List, [], ◌∷◌, ◌++◌, arith, take, drop, Bytes, codes,
  replicate, length-replicate,
}
use imx8mp_pipe_line_setup.Prelude.Int.{ℤ, pos, ◌-ℤ◌, to_int}
use imx8mp_pipe_line_setup.Double.Micro.{micro_double, Micro-IsOrdered}
use imx8mp_pipe_line_setup.Double.Printing.{micro_stdio, micro_libm}
use imx8mp_pipe_line_setup.Motor.{initial_motor}
use imx8mp_pipe_line_setup.Server.{Forwarded, bridge_server_forward}
use imx8mp_pipe_line_setup.Server.{server_writeable}
use imx8mp_pipe_line_setup.Server.Outcome.{IsServer}
use imx8mp_pipe_line_setup.Service.{icu}
use imx8mp_pipe_line_setup.Service.Latest.{Current, lws_service-Current}
use imx8mp_pipe_line_setup.Service.Messages.{whole_messages}
use imx8mp_pipe_line_setup.Receiver.Fragment.{received_so_far}
use imx8mp_pipe_line_setup.Service.Logged.{Logged, lws_service-Logged}
use imx8mp_pipe_line_setup.Server.Plain.{forward_text, view}
use imx8mp_pipe_line_setup.Server.Plain.Forward.{sent_of, bridge_server_forward-text}
use imx8mp_pipe_line_setup.Frame.Stamp.{Stamped, bridge_stamp_frame}
use imx8mp_pipe_line_setup.Frame.Stamp.Reread.{bridge_stamp_frame-reread}
use imx8mp_pipe_line_setup.Frame.Search.{find_substr}
use imx8mp_pipe_line_setup.Frame.Span.{find_value_span, parse_double_span}
use imx8mp_pipe_line_setup.Frame.Extract.{find_sent_time_key, bridge_extract_sent_time}
use imx8mp_pipe_line_setup.Memory.{snprintf, memcpy}
use imx8mp_pipe_line_setup.Memory.Pieces.{append_all}
use imx8mp_pipe_line_setup.Service.{Timespec, Event, signal, Output, Process, lws_service}
use imx8mp_pipe_line_setup.Service.Spec.{spec_of, spec_service}
use imx8mp_pipe_line_setup.Service.Fragment.{IsProcess}
use imx8mp_pipe_line_setup.Service.Refines.{Simulates, lws_service-refines}
use imx8mp_pipe_line_setup.Service.Sessions.{Fragment, session_events, session-independent}
use imx8mp_pipe_line_setup.Main.Program.{program, ProgramOutcome, program-ProgramOutcome}
use imx8mp_pipe_line_setup.Tests.{
  frame, length-storage, interpreter, sysfs, server, server-IsServer, session, session-IsSession,
}
use imx8mp_pipe_line_setup.Tests.Mains.{machine, arguments}

abbrev at_second : ℕ → Timespec
at_second n = record { tv_sec = pos n; tv_nsec = pos 500_000_000 }

-- The frame in two fragments.
abbrev halves : List Fragment
halves =
    record {
      first = true;
      final = false;
      bytes = take 20 frame;
      received = at_second 2;
      forward = at_second 2;
    }
    ∷ record {
      first = false;
      final = true;
      bytes = drop 20 frame;
      received = at_second 2;
      forward = at_second 3;
    }
    ∷ []

-- The first client has connected.
abbrev process : Process ℤ ℕ
process = record {
  sessions = λ connection. session;
  server = record server { protocol = some 2 };
  gpio = record { ready = true; writes = [] };
  running = true;
}

process-IsProcess : IsProcess process
process-IsProcess = record {
  sessions = λ connection. session-IsSession;
  server = record { storage = length-storage; within = omega arith };
}

-- Another process: the interpreter has other variables, and a signal has come.
abbrev process' : Process ℤ ℕ
process' = record process {
  server = record server { protocol = some 2; motor = initial_motor 3 };
  running = false;
}

process'-IsProcess : IsProcess process'
process'-IsProcess = record {
  sessions = λ connection. session-IsSession;
  server = record { storage = length-storage; within = omega arith };
}

bridge_server_forward-text_example :
    (f : Forwarded ℤ ℕ) × (bridge_server_forward interpreter frame
        (pos 2_000_000)
        (pos 2_100_000)
        server
      ≡ some f)
    × IsServer f.server
    × (forward_text interpreter frame (pos 2_000_000) (pos 2_100_000) (view server)
        ≡ some (sent_of f))
bridge_server_forward-text_example =
    bridge_server_forward-text Micro-IsOrdered interpreter frame (pos 2_000_000) (pos 2_100_000)
      server server-IsServer

abbrev events : List Event
events = session_events 4 (at_second 1) (at_second 1) halves

lws_service-refines_example :
    Simulates Micro-IsOrdered interpreter sysfs process
      (lws_service interpreter sysfs events process)
      (spec_service interpreter sysfs events (spec_of process))
lws_service-refines_example =
    lws_service-refines Micro-IsOrdered interpreter sysfs events process process-IsProcess

session-independent_example :
    (p' : Process ℤ ℕ) × (q' : Process ℤ ℕ) × (outputs : List Output) × (lws_service interpreter
        sysfs events process
      ≡ some (p', outputs))
    × (lws_service interpreter sysfs events process' ≡ some (q', outputs))
unfolding initial_motor
session-independent_example =
    session-independent interpreter sysfs 4 Micro-IsOrdered (at_second 1) (at_second 1) halves
      process process' (λ v w. refl) process-IsProcess process'-IsProcess
      (record {
        context = refl;
        protocol = refl;
        seq_len = refl;
        anchor_distance = refl;
        stages = (refl, (refl, tt));
      })

-- A session, and then the client can be written to.
abbrev then_written : List Event
then_written = events ++ (icu 2 (λ bytes. pos (length bytes)) server_writeable ∷ [])

lws_service-Current_example :
    (r : Process ℤ ℕ × List Output) × (lws_service interpreter sysfs then_written process ≡ some r)
    × Current (view process.server).latest r.1 (view r.0.server).latest
lws_service-Current_example =
    lws_service-Current interpreter sysfs 2 Micro-IsOrdered then_written process process-IsProcess
      refl

lws_service-Logged_example :
    (r : Process ℤ ℕ × List Output) × (lws_service interpreter sysfs then_written process ≡ some r)
    × Logged
        (view process.server)
        (whole_messages then_written (λ connection. received_so_far (process.sessions connection)))
        r.1
        (view r.0.server)
lws_service-Logged_example =
    lws_service-Logged interpreter sysfs 2 Micro-IsOrdered then_written process process-IsProcess
      refl

-- A session, then a signal in the second call, and a third call that is not made.
abbrev calls : List (List Event)
calls = events ∷ (signal ∷ []) ∷ events ∷ []

program-ProgramOutcome_example :
    ProgramOutcome machine arguments false calls (program {W = ℤ} machine arguments false calls)
program-ProgramOutcome_example =
    program-ProgramOutcome Micro-IsOrdered machine false calls arguments session-IsSession

-- The stamped frame.
abbrev text : Bytes
text =
    codes
      "{\"controller_sent_ntp_time\":1.5,\"ntp_time\":2.100000,\"base_station_processing_time\":0.100000,\"frame_transfer_time\":0.500000,\"controller_to_base_station_received_ntp_time\":2.000000,\"joystick_x\":0.5,\"joystick_y\":-0.25}"

abbrev result : Stamped ℤ
result = record {
  ret = pos 215;
  out = text ++ replicate 25 0;
  times = some (record { frame_transfer_time = pos 500_000; processing_time = pos 100_000 });
}

stamps :
    bridge_stamp_frame frame (pos 2_000_000) (pos 2_100_000) (replicate 240 0) 240 ≡ some result
unfolding bridge_stamp_frame find_sent_time_key find_substr find_value_span parse_double_span
    snprintf memcpy append_all ◌-ℤ◌ to_int
stamps = refl

bridge_stamp_frame-reread_example :
    bridge_extract_sent_time (take 215 (text ++ replicate 25 0))
    ≡ some (micro_stdio.strtod (take 63 (micro_stdio.fixed 6 (pos 2_100_000))))
bridge_stamp_frame-reread_example =
    bridge_stamp_frame-reread frame (pos 2_000_000) (pos 2_100_000)
      (refl, (refl, (refl, (refl, (refl, (refl, (refl, (refl, tt)))))))) (omega arith)
      (replicate 240 0) 240 result
      (record { frame_transfer_time = pos 500_000; processing_time = pos 100_000 }) 215
      (omega (arith, length-replicate {A = ℕ} 240 0)) (omega arith) stamps refl refl
