-- ===== src/Engine/Canonical.antt =====
-- The validations of receipts and results do not look at the order of keys: what passes them also
-- passes in its canonical form.
pub mod Items
pub mod Receipts
pub mod Results
unfoldable pub use Items.*
unfoldable pub use Receipts.*
unfoldable pub use Results.*
