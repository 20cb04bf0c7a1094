-- ===== src/Harness/Tools.antt =====
-- crates/rollout-harness-tool/src, on Linux with all features: the tools that an agent may call.
pub mod Launch
pub mod Paths
pub mod Settings
pub mod Run
pub mod Invoke
pub mod Confined
pub mod Calls
