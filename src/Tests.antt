-- ===== src/Tests.antt =====
-- Concrete data on which the theorems are tried: a frame of a controller, a state of the bridge, and an
-- interpreter that answers the same three bytes every time.
mod Frames
mod Motors
mod Servers
mod Records
mod Mains
mod Services
use imx8mp_pipe_line_setup.Prelude.{
  ℕ, ◌≡◌, Bool, true, Option, none, some, List, [], ◌∷◌, arith, length, length-replicate, replicate,
  Bytes, codes,
}
use imx8mp_pipe_line_setup.Prelude.Int.{ℤ, pos}
use imx8mp_pipe_line_setup.Double.Micro.{micro_double}
use imx8mp_pipe_line_setup.Double.Printing.{micro_libm}
use imx8mp_pipe_line_setup.Motor.{Interpreter, Motor, initial_motor}
use imx8mp_pipe_line_setup.FrameStats.{RunningStat, Stats}
use imx8mp_pipe_line_setup.Gpio.{Sysfs, Gpio}
use imx8mp_pipe_line_setup.Server.{Server}
use imx8mp_pipe_line_setup.Server.Outcome.{IsServer}
use imx8mp_pipe_line_setup.Receiver.{Session, Receiver}
use imx8mp_pipe_line_setup.Receiver.Fragment.{IsSession}
use imx8mp_pipe_line_setup.Receiver.Safety.{IsReceiver}

abbrev pub frame : Bytes
frame = codes "{\"ntp_time\":1.5,\"joystick_x\":0.5,\"joystick_y\":-0.25}"

abbrev pub storage : Bytes
storage = replicate 1024 0

pub length-storage : length storage ≡ 1024
length-storage = length-replicate {A = ℕ} 1024 0

abbrev pub interpreter : Interpreter ℕ
interpreter = record {
  invoke = λ v input. (some (pos 10 ∷ pos 20 ∷ pos 30 ∷ []), v);
  reset_variables = λ v. 0;
}

abbrev pub sysfs : Sysfs
sysfs = record { exists = λ writes path. true; accepts = λ writes path text. true }

abbrev pub motor : Motor ℤ ℕ
motor = initial_motor 7

abbrev pub empty_stat : RunningStat ℤ
empty_stat = record { sum = pos 0; least = pos 0; greatest = pos 0 }

abbrev pub stats : Stats ℤ
stats = record { count = 0; transfer = empty_stat; processing = empty_stat; total = empty_stat }

abbrev pub server : Server ℤ ℕ
server = record {
  payload = storage;
  payload_len = 0;
  context = some 1;
  protocol = none;
  motor = motor;
  stats = stats;
  samples = [];
  log = none;
}

pub server-IsServer : IsServer server
server-IsServer = record { storage = length-storage; within = omega arith }

abbrev pub session : Session
session = record { buf = replicate 512 0; len = 0 }

pub session-IsSession : IsSession session
session-IsSession = record { storage = length-replicate {A = ℕ} 512 0; within = omega arith }

abbrev pub receiver : Receiver ℤ ℕ
receiver = record {
  session = session;
  server = server;
  gpio = record { ready = true; writes = [] };
}

pub receiver-IsReceiver : IsReceiver receiver
receiver-IsReceiver = record { session = session-IsSession; server = server-IsServer }
