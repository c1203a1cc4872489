-- ===== src/Engine/Bridge.antt =====
-- Receipts as evidence: automation/shared_engine/integration_bridge.py.
-- `json.dumps` of a receipt, its inverse and SHA-256 are the standard library's: the parameter
-- `Codec` stands for them.
pub mod Contract
pub mod Receipts
pub mod Application
unfoldable pub use Contract.*
unfoldable pub use Receipts.*
unfoldable pub use Application.*
