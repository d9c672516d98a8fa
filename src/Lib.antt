-- ===== src/Lib.antt =====
-- The controller bridge: a frame of a controller comes in on one WebSocket, gets its times and the motor
-- positions of a neural network, and goes out on another to the ICU's clients. src/main.cpp sets up two
-- listeners of libwebsockets, which calls back on one thread:
--   * src/controller_receiver.cpp, the controller's side, puts the fragments of a message together in a
--     buffer of 512 bytes, and hands the whole frame to `bridge_server_forward`, between the two edges of a
--     marker on a GPIO line (src/gpio_toggle.cpp);
--   * src/bridge_server.cpp reads the joystick position (src/frame_bridge.cpp), runs the network on it
--     (src/motor_inference.cpp over src/controller_pipeline.hpp), stamps the frame into a payload of 1024
--     bytes, edits it in place (src/frame_bridge.cpp), and keeps statistics (src/frame_stats.cpp), an
--     estimate of the clocks' offset (src/clock_offset.cpp) and a log (src/timing_log.cpp) of its times.
-- The sizes are those of src/bridge_common.h.
--
-- Which file models which code:
--   * Frame: src/frame_bridge.cpp. Frame/Search is `find_substr`, Frame/Span `find_value_span` and
--     `parse_double_span`, Frame/Extract the reading functions, Frame/Edit the edits in place, Frame/Stamp
--     `bridge_stamp_frame`. Frame/Keyed says what the parts of a text around a key are. Frame/Edit/Plain and
--     Frame/Stamp/Plain are the same functions on texts alone, with no storage; Frame/Stamp/Reread is
--     about reading a stamped frame, and Frame/Edit/Reread, over Frame/Keyed/Beside on two keys in one text,
--     about reading a reformatted one.
--   * Server: src/bridge_server.cpp, with the state of all the modules that it calls. Server/Outcome
--     describes a forwarded frame, Server/Edits and Server/Forward have the proof, Server/Capacity is about
--     the sizes. Server/Plain is `bridge_server_forward` on texts alone, and what two states have in common
--     that forward the same (Server/Plain/Same).
--   * Receiver: src/controller_receiver.cpp. Receiver/Fragment is one fragment, Receiver/Safety one callback,
--     Receiver/Message a whole message.
--   * Bridge: the callbacks of both sides in any order, as a step relation, and what every reachable
--     state has.
--   * Pipeline: src/controller_pipeline.hpp, and Motor: src/motor_inference.cpp, with Motor/Setup for
--     `motor_inference_init`, Motor/Same and Motor/Session for what a
--     reset hides, and Motor/Tensor for the tensors.
--   * Service: the service loop of src/main.cpp with its signal handler and what follows it, where every
--     connection of a controller has storage of its own. The library decides which callbacks it makes: the
--     signals and callbacks of each call of `lws_service` are a list of events, each with the readings of the
--     clock that the code makes in it. Service/Spec is a specification without buffers,
--     Service/Refines relates the code to it, and Service/Loop and Service/Sessions are about
--     the loop's end and a session, Service/Latest and Service/Logged about what is written to a client and
--     what is left in the log, by what Service/Kept shows of every event;
--     Service/Messages has the messages that the events make whole.
--   * Main: src/main.cpp, the command line and the set-up, and Main/Program the whole program, set-up, loop
--     and end.
--   * ClockOffset, FrameStats, TimingLog, Gpio: src/clock_offset.cpp, src/frame_stats.cpp,
--     src/timing_log.cpp, src/gpio_toggle.cpp.
--   * Memory: `memcpy`, `memmove` and `snprintf` as the code uses them; Double: the operations on `double`
--     and the functions of the C library on one. Prelude has the shared names, and Tests the concrete data.
--
-- A function that changes statics is a function from the record of these statics to it, under the same name,
-- and its branches are those of the source, in their order. A buffer is the list of all its bytes: a
-- transfer that would leave an array is a fault, `none`, and so is a read of the front of an empty deque.
-- A return value is an integer of Prelude/Int where the source's is an `int`; the reading functions
-- return an option instead, `none` for -1. Sizes are natural numbers: `size_t` does not
-- wrap on the sizes of this program, and a length returned as an `int` is reduced by `to_int`, for which
-- the capacities are taken to be less than 2 ^ 31.
--
-- `double` is a type `W` with an instance of `Double`, `Libm` and `Stdio`, so the theorems hold for every
-- arithmetic, with NaN and infinities among its values; where a theorem needs the order of IEEE 754 it
-- takes `IsOrdered`, whose laws say that `<` relates numbers only and is a strict weak order on them, that
-- no x - x is above a literal, and that subtraction is monotone. Double/Micro is an arithmetic that has
-- them. TensorFlow Lite's interpreter and its delegate, the file system, sysfs, `atoi`, the library's
-- context and listeners and what `lws_write` returns are parameters.
--
-- Loops are structural recursion on the text or on the list they walk through, so none needs fuel: the
-- search and the scans on the text from the index on, the walk back from the end on the length, and the
-- service loop on the calls of the library that are looked at.
--
-- Not modelled: the lines that are logged, the sockets' options, a write to the log file that fails, the
-- destruction of the library's context at the end, and the accuracy of floating point. What the clock reads
-- is an argument. `static_cast<int32_t>` on a number out of range, which is undefined, is what the `Double`
-- instance says, and a sum of `int32_t` out of range, which is undefined too, wraps at 32 bits. One interpreter
-- stands for one model on one delegate; Main takes it as a function of both.
pub mod Prelude
pub mod Memory
pub mod Double
pub mod Frame
pub mod ClockOffset
pub mod FrameStats
pub mod Pipeline
pub mod Motor
pub mod TimingLog
pub mod Gpio
pub mod Server
pub mod Receiver
pub mod Bridge
pub mod Service
pub mod Main
pub mod Tests
