-- ===== src/Core.antt =====
-- The core state of the multi-agent engine (core_state.py) and its audit log.
pub mod Audit
pub mod Store
pub mod Calls
pub mod Backing
pub mod Upkeep
pub mod Verifying
pub mod Payments
pub mod Idempotency
pub mod Tests
