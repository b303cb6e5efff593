-- ===== src/Blame.antt =====
-- extension/src/model/blameModel.ts: the cache of whole-file blames.
pub mod Keys
pub mod Model
