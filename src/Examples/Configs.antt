-- ===== src/Examples/Configs.antt =====
-- The default configuration, and what it means for a lease.
use rollout.Prelude.{ℕ, ◌≡◌, refl, some, List, [], ◌∷◌}
use rollout.Core.Ids.{Bytes}
use rollout.Core.Keys.{StorageKey}
use rollout.Store.Assoc.{assoc_storage}
use rollout.Coordinator.Lease.{LeaseRecord, lease_key, epoch_key}
use rollout.Coordinator.Config.{
  CoordinatorConfig, default_transport, from_millis, times, valid, invalid, fence_violation,
  skew_violation, cadence_violation, validate_cross_fields, validate, lease_ttl,
  lease_renew_interval,
}
use rollout.Examples.Data.{lease_codec, epoch_codec}

abbrev by_default : CoordinatorConfig
by_default = record { run_id = "01ARZ3NDEKTSV4RRFFQ69G5FAV"; transport = default_transport }

default_is_valid : validate by_default ≡ some valid
unfolding validate validate_cross_fields times lease_ttl lease_renew_interval
default_is_valid = refl

-- No slack: each check but the one of the ttl fails, in the order of the code.
abbrev no_slack : CoordinatorConfig
no_slack = record by_default {
  transport = record default_transport {
    heartbeat_interval = from_millis 4000;
    worker_self_fence_timeout = from_millis 4000;
    coordinator_failure_timeout = from_millis 4000;
    clock_skew_budget = from_millis 8000;
  };
}

no_slack_is_invalid :
    validate no_slack ≡ some (invalid (fence_violation ∷ skew_violation ∷ cadence_violation ∷ []))
unfolding validate validate_cross_fields times lease_ttl lease_renew_interval
no_slack_is_invalid = refl

abbrev Rows : Type 0
Rows = List (StorageKey × Bytes)

abbrev held : LeaseRecord
held = record { holder = 21; epoch = 0; expires_at_ms = 110 }

-- The rows of the lease and of the epoch, by the deadline.
abbrev held_until : ℕ → Rows
held_until deadline = (lease_key 1, 21 ∷ 0 ∷ deadline ∷ []) ∷ (epoch_key 1, 0 ∷ []) ∷ []
