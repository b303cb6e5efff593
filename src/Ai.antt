-- ===== src/Ai.antt =====
-- The context that a prompt carries of a change (extension/src/ai/contextBuilder.ts).
pub mod Paths
pub mod Cap
pub mod Context
