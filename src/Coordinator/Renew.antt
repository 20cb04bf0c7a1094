-- ===== src/Coordinator/Renew.antt =====
-- crates/rollout-coordinator/src/run.rs, `spawn_lease_renew_loop`, and fence.rs: one tick of the
-- loop by which a coordinator keeps its lease, or learns that it has lost it.
pub mod Fencing
use rollout.Prelude.{
  ℕ, ◌==◌, ◌≡◌, Bool, true, false, Option, some, none, if◌then◌else◌, List, [], ◌∷◌,
}
use rollout.Core.Ids.{RunId, WorkerId}
use rollout.Core.Errors.{Result, ok, err, ◌>>=◌}
use rollout.Store.{Storage, Codec}
use rollout.Coordinator.Lease.{CoordEpoch, LeaseRecord, current, renew}

-- The `coordinator_fenced` event, by the values that it carries.
pub record FenceEvent : Type 0 where
  pub coord_id : WorkerId
  pub run_id : RunId
  pub stale : CoordEpoch
  pub observed : CoordEpoch

pub data FenceDecision : Type 0 where
  abort : FenceDecision

-- A failed emit is ignored: the decision is the same whatever the emitter does.
unfoldable pub fence_old_coordinator :
    WorkerId → RunId → CoordEpoch → CoordEpoch → FenceDecision × List FenceEvent
fence_old_coordinator coord_id run_id stale observed = (
  abort,
  record { coord_id = coord_id; run_id = run_id; stale = stale; observed = observed } ∷ [],
)

-- How a tick ends: the loop goes on, or the process aborts after its event.
pub data Tick {ℓ} (C : Type ℓ) : Type ℓ where
  go_on : C → Tick C
  aborted : C → List FenceEvent → Tick C

module _ ⦃st : Storage⦄ ⦃leases : Codec LeaseRecord⦄ ⦃epochs : Codec ℕ⦄ where
  -- `lease.current().await.ok().flatten().map_or(held.epoch, |c| c.epoch)`
  abbrev pub observed_epoch : CoordEpoch → Result (Option LeaseRecord) → CoordEpoch
  observed_epoch held_epoch (ok (some rec)) = rec.epoch
  observed_epoch held_epoch (ok none) = held_epoch
  observed_epoch held_epoch (err e) = held_epoch

  abbrev pub after_renew :
      RunId → WorkerId → LeaseRecord → st.Contents → Result (Bool × st.Contents) → Tick st.Contents
  after_renew run_id me held c (ok (true, c')) = go_on c'
  after_renew run_id me held c (ok (false, c')) =
      aborted c'
        (fence_old_coordinator me run_id held.epoch
          (observed_epoch held.epoch (current run_id c'))).1
  after_renew run_id me held c (err e) = go_on c

  unfoldable pub tick_held :
      RunId → WorkerId → ℕ → ℕ → CoordEpoch → LeaseRecord → st.Contents → Tick st.Contents
  unfolding fence_old_coordinator
  tick_held run_id me ttl_ms now start_epoch held c =
      if held.holder == me
      then after_renew run_id me held c (renew run_id held ttl_ms now c)
      else aborted c (fence_old_coordinator me run_id start_epoch held.epoch).1

  abbrev pub tick_current :
      RunId
      → WorkerId
      → ℕ
      → ℕ
      → CoordEpoch
      → Result (Option LeaseRecord)
      → st.Contents
      → Tick st.Contents
  tick_current run_id me ttl_ms now start_epoch (ok (some held)) c =
      tick_held run_id me ttl_ms now start_epoch held c
  tick_current run_id me ttl_ms now start_epoch (ok none) c = go_on c
  tick_current run_id me ttl_ms now start_epoch (err e) c = go_on c

  -- `read` is the store when the lease row is read, `c` when the renewal is made.
  unfoldable pub renew_tick :
      RunId → WorkerId → ℕ → ℕ → CoordEpoch → st.Contents → st.Contents → Tick st.Contents
  unfolding tick_held
  renew_tick run_id me ttl_ms now start_epoch read c =
      tick_current run_id me ttl_ms now start_epoch (current run_id read) c
