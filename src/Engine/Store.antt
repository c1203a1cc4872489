-- ===== src/Engine/Store.antt =====
-- The task table, the event log and the operations of automation/shared_engine/db.py.
-- A transaction that raises is rolled back: an error carries no store. The clock reading and the
-- fresh task id of a call are arguments. Times are millionths of a second. The log has the newest
-- event first.
pub mod Tables
pub mod Claims
pub mod Leases
pub mod Transitions
unfoldable pub use Tables.*
unfoldable pub use Claims.*
unfoldable pub use Leases.*
unfoldable pub use Transitions.*
