-- ===== src/Engine.antt =====
-- The shared engine (automation/shared_engine).
pub mod States
pub mod Store
pub mod Lease
pub mod Calls
pub mod Invariant
pub mod Machine
pub mod Fencing
pub mod Queue
pub mod Registry
pub mod Bridge
pub mod Provider
pub mod Harness
pub mod Canonical
pub mod Run
pub mod Evidence
pub mod Gate
pub mod Once
pub mod Workflow
pub mod Tests
pub mod BridgeTests
pub mod HarnessTests
pub mod RunTests
