-- ===== src/Api.antt =====
-- Route handlers: apps/web/app/api.
pub mod Accounts
pub mod Checkout
pub mod CrawlerCheck
pub mod Preview
pub mod Unlock
pub mod QuickScan
mod Tests
