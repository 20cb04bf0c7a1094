-- ===== src/Coordinator.antt =====
-- crates/rollout-coordinator/src: lease, work ledger, stealing, replay and drain.
pub mod WorkItem
pub mod Lease
pub mod Epoch
pub mod Ledger
pub mod Steal
pub mod Replay
pub mod Renew
pub mod Drain
pub mod Registry
pub mod Config
