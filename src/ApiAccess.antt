-- ===== src/ApiAccess.antt =====
-- apiaccess/: accounts, keys and entitlements.
pub mod Entitlement
pub mod Key
pub mod Modes
pub mod Scope
pub mod Canonical
pub mod Grants
pub mod Events
pub mod Usage
pub mod MemStore
mod Tests
