-- ===== src/Content.antt =====
-- The content of the site that the program computes with: apps/web/lib/content.
pub mod Crawlers
pub mod Glossary
pub mod Segments
pub mod Registry
pub mod Site
