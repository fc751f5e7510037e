-- ===== src/Portal.antt =====
-- portal/: the customer pages.
pub mod Limiter
pub mod Session
mod Tests
