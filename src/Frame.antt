-- ===== src/Frame.antt =====
-- src/frame_bridge.cpp: the text of a frame.
pub mod Search
pub mod Span
pub mod Keyed
pub mod Extract
pub mod Edit
pub mod Stamp
