-- ===== src/Scans.antt =====
-- The scans of a site: apps/web/lib/scans.
pub mod Domain
pub mod Insights
pub mod Limiter
pub mod Repository
mod Tests
