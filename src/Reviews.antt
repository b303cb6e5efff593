-- ===== src/Reviews.antt =====
-- Suggestions for a pull request (extension/src/reviews).
pub mod Suggest
