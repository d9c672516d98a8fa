-- ===== src/Service/Messages.antt =====
-- The messages of the controllers that come whole, as the events alone say: fragments are put behind one
-- another on their connection, and what exceeds 512 bytes is forgotten.
use imx8mp_pipe_line_setup.Prelude.{ℕ, Bool, List, [], ◌∷◌, ◌++◌, ltb, if◌then◌else◌, length, Bytes}
use imx8mp_pipe_line_setup.Double.{Double}
use imx8mp_pipe_line_setup.Receiver
use imx8mp_pipe_line_setup.Receiver.{receive}
use imx8mp_pipe_line_setup.Service.{Event, signal, controller, icu, update, current_epoch_seconds}

-- A whole message, with the readings of the clock as it is handed on.
pub record Message (W : Type 0) : Type 0 where
  pub raw : Bytes
  pub received : W
  pub forward : W

abbrev pub whole_of_text : {W : Type 0} → Bool → Bytes → W → W → List (Message W)
whole_of_text final text received forward =
    if ltb 512 (length text)
    then []
    else if final
    then record { raw = text; received = received; forward = forward } ∷ []
    else []

-- What stays of a text on its connection.
abbrev pub text_left : Bool → Bytes → Bytes
text_left final text = if ltb 512 (length text) then [] else if final then [] else text

abbrev pub texts_after : Event → (ℕ → Bytes) → ℕ → Bytes
texts_after signal texts = texts
texts_after (controller connection received forward Receiver.established) texts =
    update texts connection []
texts_after (controller connection received forward (receive first final bytes)) texts =
    update texts connection (text_left final ((if first then [] else texts connection) ++ bytes))
texts_after (controller connection received forward Receiver.closed) texts = texts
texts_after (controller connection received forward Receiver.other) texts = texts
texts_after (icu protocol lws_write reason) texts = texts

abbrev pub texts_behind : List Event → (ℕ → Bytes) → ℕ → Bytes
texts_behind [] texts = texts
texts_behind (event ∷ events) texts = texts_behind events (texts_after event texts)

module _ {W : Type 0} ⦃d : Double W⦄ where
  abbrev pub whole_of : Event → (ℕ → Bytes) → List (Message W)
  whole_of signal texts = []
  whole_of (controller connection received forward Receiver.established) texts = []
  whole_of (controller connection received forward (receive first final bytes)) texts =
      whole_of_text final ((if first then [] else texts connection) ++ bytes)
        (current_epoch_seconds received) (current_epoch_seconds forward)
  whole_of (controller connection received forward Receiver.closed) texts = []
  whole_of (controller connection received forward Receiver.other) texts = []
  whole_of (icu protocol lws_write reason) texts = []

  -- In the order in which they are completed, from the texts begun on each connection.
  abbrev pub whole_messages : List Event → (ℕ → Bytes) → List (Message W)
  whole_messages [] texts = []
  whole_messages (event ∷ events) texts =
      whole_of event texts ++ whole_messages events (texts_after event texts)
