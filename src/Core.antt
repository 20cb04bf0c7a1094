-- ===== src/Core.antt =====
-- crates/rollout-core/src: identifiers, errors and storage keys.
pub mod Errors
pub mod Ids
pub mod Keys
pub mod Externals
pub mod Parse
