-- ===== src/Rebase.antt =====
-- The interactive rebase editor: the plan that it edits and git's todo list.
pub mod Plan
pub mod Autosquash
pub mod Todo
mod Examples
