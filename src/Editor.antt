-- ===== src/Editor.antt =====
-- extension/src: the display modes and the gating of features by the engine's capabilities.
pub mod Modes
pub mod Gate
pub mod Groups
pub mod Failures
mod Examples
