-- ===== src/Gateway.antt =====
-- gateway/: deciding and forwarding API requests.
pub mod Route
pub mod Access
pub mod Resolver
pub mod Handler
pub mod Relay
pub mod Meter
pub mod Probe
mod Tests
