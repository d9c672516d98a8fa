-- ===== src/Service.antt =====
-- The service loop at the end of src/main.cpp, in which libwebsockets calls back src/bridge_server.cpp and
-- src/controller_receiver.cpp, and the clock that both read. Every connection of a controller has a session
-- of its own.
pub mod Spec
pub mod Fragment
pub mod Refines
pub mod Loop
pub mod Same
pub mod Sessions
pub mod Messages
pub mod Kept
pub mod Latest
pub mod Logged
use imx8mp_pipe_line_setup.Prelude.{
  ℕ, Bool, true, false, Option, none, some, List, [], ◌∷◌, ◌++◌, ◌==◌, if◌then◌else◌, take, Bytes,
  ◌>>=◌,
}
use imx8mp_pipe_line_setup.Prelude.Int.{ℤ, pos}
use imx8mp_pipe_line_setup.Double.{Double, Libm, Stdio}
use imx8mp_pipe_line_setup.Motor.{Interpreter}
use imx8mp_pipe_line_setup.Gpio.{Sysfs, Gpio}
use imx8mp_pipe_line_setup.TimingLog.{timing_log_close}
use imx8mp_pipe_line_setup.Server.{Server, Forwarded, IcuReason, callback_icu}
use imx8mp_pipe_line_setup.Receiver.{Session, Receiver, ControllerReason, callback_controller}

-- What `clock_gettime` fills in.
pub record Timespec : Type 0 where
  pub tv_sec : ℤ
  pub tv_nsec : ℤ

unfoldable pub current_epoch_seconds : {W : Type 0} ⦃d : Double W⦄ → Timespec → W
current_epoch_seconds ⦃d⦄ ts =
    d.add (d.of_int ts.tv_sec) (d.div (d.of_int ts.tv_nsec) (d.decimal 1_000_000_000 0))

-- A signal, or a callback on a connection: of a controller, with the two readings of the clock that it may
-- make, or of a client, with its protocol entry and what `lws_write` returns. The handler of a signal only
-- clears a flag that no callback reads, so it stands between two callbacks.
pub data Event : Type 0 where
  signal : Event
  controller : ℕ → Timespec → Timespec → ControllerReason → Event
  icu : ℕ → (Bytes → ℤ) → IcuReason → Event

-- What the library is asked for: a writeable callback for all connections of a protocol, with the payload that
-- is then to be sent, or bytes to be written.
pub data Output : Type 0 where
  wake : Option ℕ → ℕ → Bytes → Output
  write : Bytes → Output

-- The state of the process: the sessions by connection, the statics, and `s_running`.
pub record Process (W V : Type 0) : Type 0 where
  pub sessions : ℕ → Session
  pub server : Server W V
  pub gpio : Gpio
  pub running : Bool

-- The storage of one connection is changed.
abbrev pub update {ℓ} : {A : Type ℓ} → (ℕ → A) → ℕ → A → ℕ → A
update f connection a k = if k == connection then a else f k

abbrev pub receiver_of : {W V : Type 0} → ℕ → Process W V → Receiver W V
receiver_of connection p = record {
  session = p.sessions connection;
  server = p.server;
  gpio = p.gpio;
}

abbrev pub stored : {W V : Type 0} → ℕ → Receiver W V → Process W V → Process W V
stored connection r p = record p {
  sessions = update p.sessions connection r.session;
  server = r.server;
  gpio = r.gpio;
}

unfoldable pub wakes : Option (Option ℕ × ℕ) → Bytes → List Output
wakes none payload = []
wakes (some (context, protocol)) payload = wake context protocol payload ∷ []

unfoldable pub writes : Option Bytes → List Output
writes none = []
writes (some bytes) = write bytes ∷ []

module _ {W V : Type 0} where
  -- What a forwarded frame asks for.
  pub forwards : Option (Forwarded W V) → List Output
  unfolding wakes
  forwards none = []
  forwards (some f) = wakes f.wake (take f.server.payload_len f.server.payload)

  unfoldable pub handle_signal : Process W V → Process W V
  handle_signal p = record p { running = false }

module _ {W V : Type 0} ⦃d : Double W⦄ ⦃s : Stdio W⦄ ⦃m : Libm W⦄ (interpreter : Interpreter V)
    (sysfs : Sysfs) where
  -- One event. A memory fault is `none`.
  unfoldable pub dispatch : Event → Process W V → Option (Process W V × List Output)
  unfolding handle_signal forwards writes current_epoch_seconds
  dispatch signal p = some (handle_signal p, [])
  dispatch (controller connection received forward reason) p = do
    h ←
        callback_controller interpreter sysfs (current_epoch_seconds received)
          (current_epoch_seconds forward) reason (receiver_of connection p)
    some (stored connection h.receiver p, forwards h.forwarded)
  dispatch (icu protocol lws_write reason) p =
      let a = callback_icu protocol lws_write reason p.server in
      some (record p { server = a.server }, writes a.written)

  -- One call of `lws_service`: the callbacks that the library makes in it, and the signals that arrive.
  unfoldable pub lws_service : List Event → Process W V → Option (Process W V × List Output)
  unfolding dispatch
  lws_service [] p = some (p, [])
  lws_service (event ∷ events) p = do
    (p', outputs) ← dispatch event p
    (p'', later) ← lws_service events p'
    some (p'', outputs ++ later)

  -- `while (s_running) lws_service(context, 1000)`, over the calls that it would make.
  unfoldable pub serve : List (List Event) → Process W V → Option (Process W V × List Output)
  unfolding lws_service
  serve [] p = some (p, [])
  serve (events ∷ calls) p = elim p.running [
    | false ↦ some (p, [])
    | true ↦ (do
      (p', outputs) ← lws_service events p
      (p'', later) ← serve calls p'
      some (p'', outputs ++ later))
  ]

-- What follows the loop.
unfoldable pub shut_down : {W V : Type 0} → Process W V → ℤ × Process W V
shut_down p = (pos 0, record p { server = record p.server { log = timing_log_close p.server.log } })
