-- ===== src/Examples/Evaluations.antt =====
-- Jobs on one example of an evaluation.
use rollout.Prelude.{ℕ, ◌≡◌, refl, List, [], ◌∷◌, Option, none, some}
use rollout.Core.Ids.{Bytes, content_str}
use rollout.Core.Errors.{ok}
use rollout.Core.Keys.{StorageKey}
use rollout.Store.{Codec, encode, decode, cas_bytes, store_new}
use rollout.Store.Assoc.{assoc_storage, put_row}
use rollout.Coordinator.WorkItem.{work_key, swap_state, try_claim, try_complete}
use rollout.Coordinator.WorkItem.Swap.{Holds}
use rollout.Batch.Plan.{ObjectStore}
use rollout.Harness.Eval.{ExampleResult, run_example_job}
use rollout.Harness.Eval.Once.{done_item, job_runs_once, lost_job_reports_success}
use rollout.Examples.Data.{item_codec, reads}

-- An object store that names a blob by its bytes.
instance abbrev by_bytes : ObjectStore
by_bytes = record {
  Blobs = Unit {0};
  put_blob = λ bytes blobs. ok (bytes, blobs);
  get_blob = λ id blobs. ok id;
}

abbrev result_of_bytes : Bytes → Option (ExampleResult ℕ)
result_of_bytes (i ∷ s ∷ []) = some (record { idx = i; score = s })
result_of_bytes _ = none

instance abbrev result_codec : Codec (ExampleResult ℕ)
result_codec = record {
  to_stdvec = λ r. some (r.idx ∷ r.score ∷ []);
  from_bytes = result_of_bytes;
  round_trip = λ r b e. reads result_of_bytes r refl e;
}

abbrev Rows : Type 0
Rows = List (StorageKey × Bytes)

abbrev scored : ℕ → ExampleResult ℕ
scored n = record { idx = 0; score = n }

-- The row of item 7 of run 1, done with the first result.
abbrev recorded : Rows
recorded = (work_key 1 (7 ∷ []), 2 ∷ 2 ∷ 0 ∷ 1 ∷ 7 ∷ []) ∷ []

job_runs_once_example :
    Holds 1 (done_item (7 ∷ []) (0 ∷ 1 ∷ [])) recorded
    × (run_example_job (λ n c. c) 1 12 (7 ∷ []) (scored 0) 50 recorded tt
        ≡ ok (0 ∷ 1 ∷ [], recorded, tt))
unfolding run_example_job try_claim try_complete swap_state encode decode cas_bytes store_new
    put_row content_str
job_runs_once_example =
    job_runs_once 1 (7 ∷ []) 11 (scored 1) 40 [] recorded tt tt (0 ∷ 1 ∷ []) (λ n c. c) 12
      (scored 0) 50 tt refl refl

-- Item 7 runs on worker 11 since 40.
abbrev elsewhere : Rows
elsewhere = (work_key 1 (7 ∷ []), 1 ∷ 11 ∷ 40 ∷ 7 ∷ []) ∷ []

lost_job_reports_success_example :
    (elsewhere ≡ elsewhere)
    × ((blob : Bytes) × (encode (scored 0) ≡ ok blob)
        × (by_bytes.put_blob blob tt ≡ ok (0 ∷ 0 ∷ [], tt)))
unfolding run_example_job try_claim try_complete swap_state encode decode cas_bytes store_new
    put_row content_str
lost_job_reports_success_example =
    lost_job_reports_success 1 (7 ∷ []) 12 (scored 0) 50 elsewhere elsewhere tt tt (0 ∷ 0 ∷ []) 11
      40 (record { bytes = 1 ∷ 11 ∷ 40 ∷ 7 ∷ []; encoded = refl; stored = refl }) (λ e. cc) refl
