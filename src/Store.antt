-- ===== src/Store.antt =====
-- The `Storage` and `StorageTxn` traits of crates/rollout-core/src/traits/storage.rs as an
-- interface, and what every client of them uses: the compare-and-swap and the record codec.
mod Interface
mod Cas
mod Encoding
pub mod Rows
pub mod Assoc
pub mod Scan
pub mod Embedded
pub use Interface.*
unfoldable pub use Cas.*
unfoldable pub use Encoding.*
