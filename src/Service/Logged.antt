-- ===== src/Service/Logged.antt =====
-- What the messages of a run leave in the log and in the statistics.
use imx8mp_pipe_line_setup.Prelude.{
  ℕ, ◌≡◌, refl, sym, ap, ◌∙◌, some, List, [], ◌∷◌, ◌++◌, Bytes, Option, none,
}
use imx8mp_pipe_line_setup.Double.{Double, Libm, Stdio, IsOrdered}
use imx8mp_pipe_line_setup.Motor.{Interpreter}
use imx8mp_pipe_line_setup.Gpio.{Sysfs}
use imx8mp_pipe_line_setup.FrameStats.{Stats, frame_stats_record}
use imx8mp_pipe_line_setup.TimingLog.{LogFile}
use imx8mp_pipe_line_setup.TimingLog.Rows.{Entry, record_all}
use imx8mp_pipe_line_setup.Server.Plain.{Sender, view, sent_after}
use imx8mp_pipe_line_setup.Service.{Event, Output, wake, write, wakes, Process, lws_service}
use imx8mp_pipe_line_setup.Service.Fragment.{IsProcess}
use imx8mp_pipe_line_setup.Service.Kept.{IsKept, lws_service-IsKept}
use imx8mp_pipe_line_setup.Service.Messages.{Message, whole_messages}
use imx8mp_pipe_line_setup.Frame.Stamp.{Times}
use imx8mp_pipe_line_setup.Frame.Stamp.Plain.{stamp_text}
use imx8mp_pipe_line_setup.Frame.Extract.{bridge_extract_joystick}
use imx8mp_pipe_line_setup.Motor.{MotorOut}
use imx8mp_pipe_line_setup.Server.{max_bridged_frame_len, times_of}
use imx8mp_pipe_line_setup.Server.Plain.{joystick_text, corrected_text}
use imx8mp_pipe_line_setup.Receiver.Fragment.{received_so_far}
use imx8mp_pipe_line_setup.TimingLog.Rows.{with_rows, record_all-with_rows}

module _ {W : Type 0} ⦃d : Double W⦄ ⦃s : Stdio W⦄ where
  -- The entry of a message that was announced as `text`: the time at which it came, the two times of its own
  -- stamp, and the corrected time that `text` has.
  pub record IsEntry (message : Message W) (text : Bytes) (e : Entry W) : Type 0 where
    pub body : Bytes
    pub times : Option (Times W)
    pub motor_out : Option (MotorOut W)
    pub stamped :
        stamp_text message.raw message.received message.forward max_bridged_frame_len
        ≡ some (body, times)
    pub wall_is : e.wall_epoch_seconds ≡ message.received
    pub transfer_is : e.frame_transfer_time ≡ (times_of times).frame_transfer_time
    pub processing_is : e.base_station_processing_time ≡ (times_of times).processing_time
    pub text_is :
        text
        ≡ joystick_text
            (bridge_extract_joystick message.raw)
            motor_out
            (corrected_text e.frame_transfer_time_corrected body)

  -- Each message is dropped, because it could not be stamped, or announced with its entry, in the order in
  -- which they come.
  pub data Accounted : List (Message W) → List Output → List (Entry W) → Type 0 where
    nothing : Accounted [] [] []
    written :
        {ms : List (Message W)} {outputs : List Output} {es : List (Entry W)} (bytes : Bytes)
        → Accounted ms outputs es
        → Accounted ms (write bytes ∷ outputs) es
    dropped :
        {ms : List (Message W)} {outputs : List Output} {es : List (Entry W)} (message : Message W)
        → stamp_text message.raw message.received message.forward max_bridged_frame_len ≡ none
        → Accounted ms outputs es
        → Accounted (message ∷ ms) outputs es
    announced :
        {ms : List (Message W)} {outputs : List Output} {es : List (Entry W)} (message : Message W)
        (context : Option ℕ) (protocol : ℕ) (text : Bytes) (e : Entry W)
        → IsEntry message text e
        → Accounted ms outputs es
        → Accounted (message ∷ ms) (wake context protocol text ∷ outputs) (e ∷ es)

  Accounted-append :
      {ms ns : List (Message W)} {xs ys : List Output} {es fs : List (Entry W)}
      → Accounted ms xs es
      → Accounted ns ys fs
      → Accounted (ms ++ ns) (xs ++ ys) (es ++ fs)
  Accounted-append nothing k = k
  Accounted-append (written bytes h) k = written bytes (Accounted-append h k)
  Accounted-append (dropped message stamp h) k = dropped message stamp (Accounted-append h k)
  Accounted-append (announced message context protocol text e i h) k =
      announced message context protocol text e i (Accounted-append h k)

  -- The statistics with the times of all entries.
  abbrev pub count_all : List (Entry W) → Stats W → Stats W
  count_all [] stats = stats
  count_all (e ∷ es) stats =
      count_all es (frame_stats_record e.frame_transfer_time e.base_station_processing_time stats).0

  count_all-append :
      (xs ys : List (Entry W)) (stats : Stats W)
      → count_all (xs ++ ys) stats ≡ count_all ys (count_all xs stats)
  count_all-append [] ys stats = refl
  count_all-append (x ∷ xs) ys stats = count_all-append xs ys _

  record_all-append :
      (xs ys : List (Entry W)) (log : LogFile)
      → record_all (xs ++ ys) log ≡ record_all ys (record_all xs log)
  unfolding record_all
  record_all-append [] ys log = refl
  record_all-append (x ∷ xs) ys log = record_all-append xs ys _

  -- One entry for each announced message, whose rows stand behind what the log held, and whose times the
  -- statistics have counted.
  pub record Logged {V : Type 0} (p : Sender W V) (ms : List (Message W)) (outputs : List Output)
      (q : Sender W V) : Type 0 where
    pub entries : List (Entry W)
    pub each : Accounted ms outputs entries
    pub log_is : q.log ≡ with_rows entries p.log
    pub stats_is : q.stats ≡ count_all entries p.stats

  with_rows-append :
      (xs ys : List (Entry W)) (log : LogFile)
      → with_rows ys (with_rows xs log) ≡ with_rows (xs ++ ys) log
  with_rows-append xs ys log =
      ap (with_rows ys) (sym (record_all-with_rows xs log))
      ∙ sym (record_all-with_rows ys (record_all xs log))
      ∙ sym (record_all-append xs ys log)
      ∙ record_all-with_rows (xs ++ ys) log

  Logged-append :
      {V : Type 0} (p q r : Sender W V) (ms ns : List (Message W)) (xs ys : List Output)
      → Logged p ms xs q
      → Logged q ns ys r
      → Logged p (ms ++ ns) (xs ++ ys) r
  Logged-append p q r ms ns xs ys h k = record {
    entries = h.entries ++ k.entries;
    each = Accounted-append h.each k.each;
    log_is =
        k.log_is ∙ ap (with_rows k.entries) h.log_is ∙ with_rows-append h.entries k.entries p.log;
    stats_is =
        k.stats_is
        ∙ ap (count_all k.entries) h.stats_is
        ∙ sym (count_all-append h.entries k.entries p.stats);
  }

  Logged-IsKept : {V : Type 0} (known : ℕ) → IsKept {V = V} known Logged
  unfolding sent_after wakes record_all
  Logged-IsKept known = record {
    still = λ p q latest stats log. record {
      entries = [];
      each = nothing;
      log_is = log ∙ record_all-with_rows {W = W} [] p.log;
      stats_is = stats;
    };
    behind = Logged-append;
    written = λ p. record {
      entries = [];
      each = written p.latest nothing;
      log_is = record_all-with_rows {W = W} [] p.log;
      stats_is = refl;
    };
    dropped = λ message p stamp. record {
      entries = [];
      each = dropped message stamp nothing;
      log_is = record_all-with_rows {W = W} [] p.log;
      stats_is = refl;
    };
    published = λ message motor_out body times p kept e stamp.
        let entry : Entry W = record {
          wall_epoch_seconds = message.received;
          frame_transfer_time = (times_of times).frame_transfer_time;
          frame_transfer_time_corrected = kept.0;
          base_station_processing_time = (times_of times).processing_time;
        } in
        record {
          entries = entry ∷ [];
          each = rw e (
              announced message p.context known _ entry
                (record {
                  body = body;
                  times = times;
                  motor_out = motor_out;
                  stamped = stamp;
                  wall_is = refl;
                  transfer_is = refl;
                  processing_is = refl;
                  text_is = refl;
                })
                nothing);
          log_is = record_all-with_rows (entry ∷ []) p.log;
          stats_is = refl;
        };
  }

module _ {W V : Type 0} ⦃d : Double W⦄ ⦃s : Stdio W⦄ ⦃m : Libm W⦄ (interpreter : Interpreter V)
    (sysfs : Sysfs) (known : ℕ) where
  -- Once the clients' protocol is known, whatever callbacks and signals come, each message that the
  -- fragments make whole, taken in order, is dropped because it could not be stamped, or announced and
  -- recorded once: its entry has the time at which it came, the two times of its own stamp, and the
  -- corrected time that the announced text has. Behind what the log held it has one row for each entry,
  -- in order, or it stays disabled; the statistics have counted the same times in the same order; no
  -- other callback changes either. The buffers have their sizes, and the double has IEEE 754's order.
  pub lws_service-Logged :
      IsOrdered W
      → (events : List Event) (p : Process W V) → IsProcess p
      → p.server.protocol ≡ some known
      → (r : Process W V × List Output) × (lws_service interpreter sysfs events p ≡ some r)
        × Logged
            (view p.server)
            (whole_messages events (λ connection. received_so_far (p.sessions connection)))
            r.1
            (view r.0.server)
  lws_service-Logged laws events p i e =
      lws_service-IsKept interpreter sysfs known Logged (Logged-IsKept known) laws events p i e
