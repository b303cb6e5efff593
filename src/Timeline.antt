-- ===== src/Timeline.antt =====
-- extension/webviews-src/timeline/timelineLogic.ts: the lanes of the authors and the labels of the lanes. Scales,
-- bubbles and colors compute in floating point and are not modelled.
pub mod Lanes
pub mod Labels
mod Examples
