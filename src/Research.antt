-- ===== src/Research.antt =====
-- Research by several models: automation/multimodel_research_v1.
pub mod Contract
pub mod Task
pub mod Result
pub mod Assignment
pub mod Evidence
pub mod Aggregate
pub mod Report
pub mod Scope
pub mod Groups
pub mod Unique
pub mod Backing
pub mod Divergence
pub mod Diversity
pub mod Sides
pub mod Fanout
pub mod Summary
pub mod Coverage
pub mod Fixtures
pub mod Tests
pub mod AssignmentTests
