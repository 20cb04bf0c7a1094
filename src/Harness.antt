-- ===== src/Harness.antt =====
-- The harnesses: crates/rollout-harness-text, rollout-harness-tool and rollout-harness-eval.
pub mod Text
pub mod Tools
pub mod Eval
