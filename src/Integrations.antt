-- ===== src/Integrations.antt =====
-- packages/integrations/src: the cache and the pull-request groups of the forge integrations.
pub mod Cache
pub mod Launchpad
pub mod RateLimiter
mod Examples
