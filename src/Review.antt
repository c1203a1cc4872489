-- ===== src/Review.antt =====
-- The review dispatcher (automation/review_dispatcher_v1): which request is in force, and how it
-- reads from the code host.
pub mod Shapes
pub mod Paths
pub mod Recipe
pub mod Request
pub mod Arbitration
pub mod Candidates
pub mod Authority
pub mod Admitted
pub mod Current
pub mod Paging
pub mod RequestTests
pub mod Walk
pub mod Lineage
pub mod Fetch
pub mod Waiting
pub mod Tests
