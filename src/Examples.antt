-- ===== src/Examples.antt =====
-- Runs at concrete inputs, over the store of rows.
pub mod Data
pub mod Work
pub mod Leases
pub mod Batches
pub mod Network
pub mod Queues
pub mod Workers
pub mod Archives
pub mod Configs
pub mod Tables
pub mod Uploads
pub mod Episodes
pub mod Agents
pub mod Files
pub mod Evaluations
