-- ===== src/Connection.antt =====
-- One connection with a tester.
pub mod State
pub mod Transport
pub mod Handlers
pub mod Lifetime
pub mod Safety
pub mod Specification
pub mod Delivery
mod Tests
