-- ===== src/Coordinator/Epoch.antt =====
-- crates/rollout-coordinator/src/epoch.rs: the epoch row, the stamp on responses, and the guard by
-- which a worker rejects a deposed coordinator.
pub mod Guard
use rollout.Prelude.{ℕ, ◌≡◌, Bool, true, false, Option, some, none, if◌then◌else◌, ltb, max}
use rollout.Core.Ids.{Bytes, RunId}
use rollout.Core.Errors.{Result, ok, err, CoreError, recoverable, transient, RetryHint}
use rollout.Store.{Storage, Codec, decode}
use rollout.Coordinator.Lease.{CoordEpoch, epoch_key}

module _ ⦃st : Storage⦄ ⦃epochs : Codec ℕ⦄ where
  unfoldable pub current_epoch : RunId → st.Contents → Result CoordEpoch
  current_epoch run_id c = elim (st.get_bytes (epoch_key run_id) c) [
    | some bytes ↦ decode bytes
    | none ↦ ok 0
  ]

unfoldable pub stamp_epoch {ℓ} : {T : Type ℓ} → T → CoordEpoch → T × CoordEpoch
stamp_epoch resp epoch = (resp, epoch)

pub record EpochGuard : Type 0 where
  pub seen_max : CoordEpoch

abbrev pub default_guard : EpochGuard
default_guard = record { seen_max = 0 }

abbrev pub stale : CoreError
stale = recoverable (transient "stale coord_epoch (deposed coordinator)" RetryHint.never)

-- The guard after the response, and what the caller gets.
unfoldable pub accept : EpochGuard → CoordEpoch → Result (Unit {0}) × EpochGuard
accept g resp_epoch =
    if ltb resp_epoch g.seen_max
    then (err stale, g)
    else (ok tt, record { seen_max = max g.seen_max resp_epoch })
