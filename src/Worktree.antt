-- ===== src/Worktree.antt =====
-- extension/src/views/worktreeLogic.ts: the worktree rows and the cache of their statuses.
pub mod StatusCache
