-- ===== src/Robots.antt =====
-- The robots.txt checker: apps/web/lib/robots.
pub mod Address
pub mod Parse
pub mod Fetch
mod Tests
