-- ===== src/Harness/Eval.antt =====
-- crates/rollout-harness-eval/src/job.rs: one example of an evaluation as a work item. A score is a
-- value of any type `F`. What other processes write between the transactions of a job is an argument.
pub mod Once
use rollout.Prelude.{ℕ, ◌≡◌, Bool, true, false, List, Option, none, some}
use rollout.Core.Ids.{Bytes, RunId, WorkerId, ContentId}
use rollout.Core.Errors.{Result, ok, err, ◌>>=◌}
use rollout.Core.Externals.{Blake3}
use rollout.Store.{Storage, Codec, encode, decode}
use rollout.Coordinator.WorkItem.{WorkState, WorkItemRecord, work_key, try_claim, try_complete}
use rollout.Batch.Plan.{ObjectStore}

pub record ExampleResult (F : Type 0) : Type 0 where
  pub idx : ℕ
  pub score : F

-- The tuple that names an example: suite, version, index and model.
abbrev pub ExampleName : Type 0
ExampleName = Bytes × Bytes × ℕ × Bytes

unfoldable pub example_work_id :
    ⦃blake3 : Blake3⦄ → ⦃names : Codec ExampleName⦄ → Bytes → Bytes → ℕ → Bytes → Result ContentId
example_work_id ⦃blake3⦄ suite version idx model_id = do
  let name : ExampleName = (suite, version, idx, model_id)
  bytes ← encode name
  ok (blake3.content_of bytes)

abbrev pub pending_item : ContentId → WorkItemRecord
pending_item work_id = record { id = work_id; state = WorkState.pending }

abbrev pub running_item : ContentId → WorkerId → ℕ → WorkItemRecord
running_item work_id worker_id now_ms = record {
  id = work_id;
  state = WorkState.running worker_id now_ms;
}

module _ ⦃st : Storage⦄ ⦃items : Codec WorkItemRecord⦄ where
  -- What the first read decides: the stored result, or to go on with some contents.
  pub data Entry : Type 0 where
    finished : ContentId → Entry
    go_on : st.Contents → Entry

  abbrev pub entry_of_state : WorkState → st.Contents → Entry
  entry_of_state (WorkState.done result_id) c = finished result_id
  entry_of_state WorkState.pending c = go_on c
  entry_of_state (WorkState.running worker_id started_at_ms) c = go_on c
  entry_of_state (WorkState.failed reason) c = go_on c

  -- Without a row a pending one is seeded, in the contents that the store has by then.
  abbrev pub entry : RunId → ContentId → Option Bytes → st.Contents → Result Entry
  entry run_id work_id none c = do
    bytes ← encode (pending_item work_id)
    ok (go_on (st.put_bytes (work_key run_id work_id) bytes c))
  entry run_id work_id (some bytes) c = do
    let read : Result WorkItemRecord = decode bytes
    rec ← read
    ok (entry_of_state rec.state c)

  module _ ⦃objects : ObjectStore⦄ where
    abbrev pub Ran : Type 0
    Ran = Result (ContentId × st.Contents × objects.Blobs)

    abbrev pub completed : ContentId → objects.Blobs → Result (Bool × st.Contents) → Ran
    completed result_id blobs (err e) = err e
    completed result_id blobs (ok (done, c)) = ok (result_id, c, blobs)

  module _ {F : Type 0} ⦃results : Codec (ExampleResult F)⦄ ⦃objects : ObjectStore⦄ where
    -- Claim, store the blob, complete. A transition that loses leaves the contents as they are.
    abbrev pub claim_and_complete :
        (ℕ → st.Contents → st.Contents)
        → RunId
        → WorkerId
        → ContentId
        → ExampleResult F
        → ℕ
        → objects.Blobs
        → st.Contents
        → Ran
    claim_and_complete others run_id worker_id work_id result now_ms blobs c = do
      claim ← try_claim run_id (pending_item work_id) worker_id now_ms c
      blob ← encode result
      stored ← objects.put_blob blob blobs
      completed stored.0 stored.1
          (try_complete run_id (running_item work_id worker_id now_ms) stored.0 (others 1 claim.1))

    abbrev pub after_entry :
        (ℕ → st.Contents → st.Contents)
        → RunId
        → WorkerId
        → ContentId
        → ExampleResult F
        → ℕ
        → st.Contents
        → objects.Blobs
        → Entry
        → Ran
    after_entry others run_id worker_id work_id result now_ms c blobs (finished result_id) =
        ok (result_id, c, blobs)
    after_entry others run_id worker_id work_id result now_ms c blobs (go_on c₁) =
        claim_and_complete others run_id worker_id work_id result now_ms blobs (others 0 c₁)

    -- Others write between the read and the seed (2), before the claim (0) and before the end (1).
    unfoldable pub run_example_job :
        (ℕ → st.Contents → st.Contents)
        → RunId
        → WorkerId
        → ContentId
        → ExampleResult F
        → ℕ
        → st.Contents
        → objects.Blobs
        → Ran
    run_example_job others run_id worker_id work_id result now_ms c blobs =
        entry run_id work_id (st.get_bytes (work_key run_id work_id) c) (others 2 c)
        >>= after_entry others run_id worker_id work_id result now_ms c blobs
