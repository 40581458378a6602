-- ===== src/Auth.antt =====
-- Authentication: apps/web/lib/auth. Hashes and the check of a password are parameters, random
-- tokens and the ids of new rows are arguments.
pub mod Session
pub mod RateLimit
pub mod Login
pub mod Account
pub mod Origin
pub mod Cookies
mod Tests
