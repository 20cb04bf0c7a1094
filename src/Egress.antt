-- ===== src/Egress.antt =====
-- crates/rollout-harness-tool/src/http: the address filter of the HTTP tools, and the fetch loop.
pub mod Filter
pub mod Cidr
pub mod Fetch
pub mod Safety
