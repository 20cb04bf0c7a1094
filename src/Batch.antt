-- ===== src/Batch.antt =====
-- crates/rollout-runtime-batch/src/state.rs: the life of a sample, each step one compare-and-swap on
-- the exact bytes of the prior record.
pub mod Swap
pub mod Plan
pub mod Work
pub mod Resume
pub mod Loop
pub mod Finish
pub mod Identity
pub mod Collect
use rollout.Prelude.{
  ℕ, zero, suc, ◌-◌, ◌/◌, ◌%◌, ltb, Bool, true, false, List, [], ◌∷◌, ◌++◌, some, codes,
  if◌then◌else◌,
}
use rollout.Core.Ids.{Bytes, RunId, WorkerId, ContentId, content_str}
use rollout.Core.Errors.{Result, ok, ◌>>=◌}
use rollout.Core.Keys.{StorageKey}
use rollout.Core.Externals.{Blake3}
use rollout.Store.{Storage, Codec, encode, cas_bytes}

abbrev pub sampling_params_schema_version : ℕ
sampling_params_schema_version = 1

abbrev pub default_stale_after_ms : ℕ
default_stale_after_ms = 300000

pub data SampleState : Type 0 where
  pending : SampleState
  running : WorkerId → ℕ → SampleState
  done : ContentId → ℕ → SampleState
  failed : Bytes → ℕ → SampleState

pub record SampleRecord : Type 0 where
  pub id : ContentId
  pub prompt_blob : ContentId
  pub state : SampleState
  pub created_at_ms : ℕ
  pub input_idx : ℕ

abbrev pub sample_key : RunId → ContentId → StorageKey
sample_key run_id sample_id = record {
  namespace = codes "infer";
  run_id = some run_id;
  path = codes "samples" ∷ content_str sample_id ∷ [];
}

-- `to_le_bytes`
unfoldable pub le_bytes : ℕ → ℕ → Bytes
le_bytes zero n = []
le_bytes (suc w) n = n % 256 ∷ le_bytes w (n / 256)

-- What `sample_id` gives to the hasher. `params` is the encoding of the sampling parameters.
unfoldable pub id_input : ContentId → Bytes → Bytes → ℕ → Bytes
unfolding le_bytes
id_input model_content_id prompt params idx =
    sampling_params_schema_version ∷ model_content_id ++ (prompt ++ (params ++ le_bytes 8 idx))

module _ ⦃blake3 : Blake3⦄ where
  unfoldable pub sample_id : ContentId → Bytes → Bytes → ℕ → ContentId
  unfolding id_input
  sample_id model_content_id prompt params idx =
      blake3.content_of (id_input model_content_id prompt params idx)

-- Pending, or a claim whose age is above the window.
abbrev pub claimable : ℕ → ℕ → SampleState → Bool
claimable now_ms stale_after_ms pending = true
claimable now_ms stale_after_ms (running w started_at_ms) =
    ltb stale_after_ms (now_ms - started_at_ms)
claimable now_ms stale_after_ms _ = false

module _ ⦃st : Storage⦄ ⦃codec : Codec SampleRecord⦄ where
  -- The part that the four transitions share.
  unfoldable pub swap_sample :
      RunId → SampleRecord → SampleState → st.Contents → Result (Bool × st.Contents)
  swap_sample run_id rec next c = do
    expected ← encode rec
    new ← encode (record rec { state = next })
    ok (cas_bytes (sample_key run_id rec.id) (some expected) (some new) c)

  unfoldable pub try_claim :
      SampleRecord → RunId → WorkerId → ℕ → ℕ → st.Contents → Result (Bool × st.Contents)
  try_claim rec run_id worker_id now_ms stale_after_ms c =
      if claimable now_ms stale_after_ms rec.state
      then swap_sample run_id rec (running worker_id now_ms) c
      else ok (false, c)

  unfoldable pub try_complete :
      SampleRecord → RunId → ContentId → ℕ → st.Contents → Result (Bool × st.Contents)
  try_complete rec run_id completion_blob finished_at_ms c =
      swap_sample run_id rec (done completion_blob finished_at_ms) c

  unfoldable pub try_fail :
      SampleRecord → RunId → Bytes → ℕ → st.Contents → Result (Bool × st.Contents)
  try_fail rec run_id reason failed_at_ms c = swap_sample run_id rec (failed reason failed_at_ms) c

  unfoldable pub try_repending : SampleRecord → RunId → st.Contents → Result (Bool × st.Contents)
  try_repending rec run_id c = swap_sample run_id rec pending c
