-- ===== src/Coordinator/WorkItem.antt =====
-- crates/rollout-coordinator/src/work_item.rs: the life of a work item, each step one
-- compare-and-swap on the exact bytes of the prior record.
pub mod Swap
pub mod Race
pub mod Life
use rollout.Prelude.{ℕ, ◌≡◌, Bool, true, false, List, [], ◌∷◌, some, none, codes, if◌then◌else◌}
use rollout.Core.Ids.{Bytes, RunId, WorkerId, ContentId, content_str}
use rollout.Core.Errors.{Result, ok, err, ◌>>=◌}
use rollout.Core.Keys.{StorageKey}
use rollout.Store.{Storage, Codec, encode, cas_bytes}

pub data WorkState : Type 0 where
  pending : WorkState
  running : (worker_id : WorkerId) (started_at_ms : ℕ) → WorkState
  done : (result_id : ContentId) → WorkState
  failed : (reason : Bytes) → WorkState

pub record WorkItemRecord : Type 0 where
  pub id : ContentId
  pub state : WorkState

abbrev pub work_key : RunId → ContentId → StorageKey
work_key run_id work_id = record {
  namespace = codes "work";
  run_id = some run_id;
  path = codes "item" ∷ content_str work_id ∷ [];
}

abbrev pub work_prefix : RunId → StorageKey
work_prefix run_id = record {
  namespace = codes "work";
  run_id = some run_id;
  path = codes "item" ∷ [];
}

-- `matches!(state, WorkState::Pending)`
abbrev pub is_pending : WorkState → Bool
is_pending pending = true
is_pending _ = false

-- `matches!(state, WorkState::Running { .. })`
abbrev pub is_running : WorkState → Bool
is_running (running _ _) = true
is_running _ = false

module _ ⦃st : Storage⦄ ⦃codec : Codec WorkItemRecord⦄ where
  -- The part that the three transitions share: from the encoding of the record to the swap.
  unfoldable pub swap_state :
      RunId → WorkItemRecord → WorkState → st.Contents → Result (Bool × st.Contents)
  swap_state run_id rec next c = do
    expected ← encode rec
    new ← encode (record rec { state = next })
    ok (cas_bytes (work_key run_id rec.id) (some expected) (some new) c)

  unfoldable pub try_claim :
      RunId → WorkItemRecord → WorkerId → ℕ → st.Contents → Result (Bool × st.Contents)
  try_claim run_id rec worker_id now_ms c =
      if is_pending rec.state
      then swap_state run_id rec (running worker_id now_ms) c
      else ok (false, c)

  unfoldable pub try_complete :
      RunId → WorkItemRecord → ContentId → st.Contents → Result (Bool × st.Contents)
  try_complete run_id rec result_id c =
      if is_running rec.state then swap_state run_id rec (done result_id) c else ok (false, c)

  unfoldable pub try_repending : RunId → WorkItemRecord → st.Contents → Result (Bool × st.Contents)
  try_repending run_id rec c =
      if is_running rec.state then swap_state run_id rec pending c else ok (false, c)
