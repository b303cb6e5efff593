-- ===== src/Graph.antt =====
-- extension/webviews-src/graph/graphLogic.ts: the commit graph's geometry, selection and menus.
-- Pixels are whole numbers, and the engine's lane and row numbers are naturals.
pub mod Rows
pub mod Lanes
pub mod Edges
pub mod Selection
pub mod Find
pub mod Menus
pub mod Columns
pub mod Store
mod Examples
