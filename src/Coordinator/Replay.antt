-- ===== src/Coordinator/Replay.antt =====
-- crates/rollout-coordinator/src/run.rs, `replay_and_serve`: a coordinator that boots takes the
-- lease and rebuilds what is in flight from the work ledger.
pub mod Ledger
use rollout.Prelude.{
  ℕ, ◌+◌, ◌==◌, ◌≡◌, Bool, true, false, List, [], ◌∷◌, ◌++◌, Option, some, none, if◌then◌else◌,
  bytes_eq,
}
use rollout.Core.Ids.{Bytes, RunId, WorkerId, ContentId}
use rollout.Core.Errors.{Result, ok, err, ◌>>=◌}
use rollout.Core.Keys.{StorageKey}
use rollout.Store.{Storage, Codec}
use rollout.Coordinator.WorkItem.{
  WorkState, pending, running, done, failed, WorkItemRecord, work_prefix,
}
use rollout.Coordinator.Lease.{CoordEpoch, LeaseRecord, try_acquire}
use rollout.Coordinator.Steal.{decodable}

-- `HashMap<ContentId, WorkerId>` as the list of its entries.
abbrev pub InFlight : Type 0
InFlight = List (ContentId × WorkerId)

-- `in_flight.insert(id, worker)`
abbrev pub put_entry : ContentId → WorkerId → InFlight → InFlight
put_entry id w [] = (id, w) ∷ []
put_entry id w ((j, v) ∷ m) = if bytes_eq j id then (id, w) ∷ m else (j, v) ∷ put_entry id w m

abbrev pub lookup_entry : ContentId → InFlight → Option WorkerId
lookup_entry id [] = none
lookup_entry id ((j, v) ∷ m) = if bytes_eq j id then some v else lookup_entry id m

pub record ReplayState : Type 0 where
  pub epoch : CoordEpoch
  pub in_flight : InFlight
  pub pending : List ContentId
  pub terminal : ℕ

abbrev pub replay_one : ContentId → WorkState → ReplayState → ReplayState
replay_one id (running w t) s = record s { in_flight = put_entry id w s.in_flight }
replay_one id WorkState.pending s = record s { pending = s.pending ++ id ∷ [] }
replay_one id (done r) s = record s { terminal = s.terminal + 1 }
replay_one id (failed r) s = record s { terminal = s.terminal + 1 }

-- The loop over the rows: a row that does not decode is passed over (`decodable`).
unfoldable pub replay_records : List WorkItemRecord → ReplayState → ReplayState
replay_records [] s = s
replay_records (rec ∷ recs) s = replay_records recs (replay_one rec.id rec.state s)

abbrev pub boot_state : CoordEpoch → ReplayState
boot_state epoch = record { epoch = epoch; in_flight = []; pending = []; terminal = 0 }

module _ ⦃st : Storage⦄ ⦃items : Codec WorkItemRecord⦄ ⦃leases : Codec LeaseRecord⦄
    ⦃epochs : Codec ℕ⦄ where
  abbrev pub replay_held :
      RunId
      → (st.Contents → st.Contents)
      → Option LeaseRecord × st.Contents
      → Option ReplayState × st.Contents
  replay_held run_id env (none, c) = (none, c)
  replay_held run_id env (some held, c) = (
    some (
        replay_records (decodable (st.scan_bytes (work_prefix run_id) (env c)))
          (boot_state held.epoch)),
    env c,
  )

  -- `read` is the store when the lease row is read, `c` when the claim is made; `env` is what others
  -- write between the claim and the scan.
  unfoldable pub replay_and_serve :
      RunId
      → WorkerId
      → ℕ
      → ℕ
      → (st.Contents → st.Contents)
      → st.Contents
      → st.Contents
      → Result (Option ReplayState × st.Contents)
  unfolding replay_records decodable
  replay_and_serve run_id me ttl_ms now env read c =
      try_acquire run_id me ttl_ms now read c >>= λ r. ok (replay_held run_id env r)
