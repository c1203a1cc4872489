-- ===== src/Routing.antt =====
-- The routing of missions to providers (config/provider.py, config/router.py).
pub mod Registry
pub mod Selection
pub mod Tests
