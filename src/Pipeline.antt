-- ===== src/Pipeline.antt =====
-- src/controller_pipeline.hpp: from a joystick position to the model's input, and from its output to
-- filtered motor positions.
pub mod Quantize
pub mod Angles
pub mod History
pub mod Ema
