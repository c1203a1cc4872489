-- ===== src/Core/Store.antt =====
-- The tables of `CoreStateEngine` and its operations (core_state.py), with the queue that works on
-- the same database (config/queue.py).
-- An exception inside a transaction is `none`: it is rolled back and the method answers with its
-- fallback. Fresh ids and clock readings are arguments; times are counted from an epoch.
pub mod Tables
pub mod Tasks
pub mod Receipts
pub mod Revenues
unfoldable pub use Tables.*
unfoldable pub use Tasks.*
unfoldable pub use Receipts.*
unfoldable pub use Revenues.*
