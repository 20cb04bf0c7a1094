-- ===== src/Batch/Plan.antt =====
-- crates/rollout-runtime-batch/src/coordinator.rs: `scan_and_enqueue`, `load_sample` and
-- `collect_done_records`. An error ends the call; what was committed before it is not followed further.
use rollout.Prelude.{
  ℕ, ◌+◌, ◌-◌, ltb, leb, Bool, true, false, List, [], ◌∷◌, ◌++◌, Option, none, some, codes,
  if◌then◌else◌,
}
use rollout.Prelude.Sort.{sort_by}
use rollout.Core.Ids.{Bytes, RunId, ContentId, content_str}
use rollout.Core.Errors.{Result, ok, ◌>>=◌, or_internal}
use rollout.Core.Keys.{StorageKey}
use rollout.Core.Externals.{Blake3}
use rollout.Store.{Storage, Codec, encode, decode}
use rollout.Batch.{
  SampleState, pending, running, done, failed, SampleRecord, sample_key, sample_id, try_repending,
}

pub record InputItem : Type 0 where
  pub input_idx : ℕ
  pub prompt : Bytes

-- An object store: `put_bytes` answers with the id of the blob.
pub record ObjectStore : Type 1 where
  pub Blobs : Type 0
  pub put_blob : Bytes → Blobs → Result (ContentId × Blobs)
  pub get_blob : ContentId → Blobs → Result Bytes

-- Storage, object store, and what has been put on the queue so far.
pub record Site ⦃st : Storage⦄ ⦃objects : ObjectStore⦄ : Type 0 where
  pub store : st.Contents
  pub blobs : objects.Blobs
  pub queue : List Bytes

pub record BatchCoordinator : Type 0 where
  pub run_id : RunId
  pub stale_after_ms : ℕ

module _ ⦃st : Storage⦄ ⦃codec : Codec SampleRecord⦄ ⦃objects : ObjectStore⦄ where
  -- What a step adds to the count of enqueued samples, and the site after it.
  abbrev pub Planned : Type 0
  Planned = Result (ℕ × Site)

  -- `queue.enqueue(sid.to_string().into_bytes())` and `enqueued += 1`
  unfoldable pub push : ContentId → Site → ℕ × Site
  push sid s = (1, record s { queue = s.queue ++ content_str sid ∷ [] })

  unfoldable pub plan_new : BatchCoordinator → ℕ → ContentId → InputItem → Site → Planned
  unfolding push
  plan_new this now_ms sid item s = do
    (prompt_blob, blobs) ← objects.put_blob item.prompt s.blobs
    let rec : SampleRecord = record {
      id = sid;
      prompt_blob = prompt_blob;
      state = pending;
      created_at_ms = now_ms;
      input_idx = item.input_idx;
    }
    bytes ← encode rec
    ok (
        push sid (record s {
          store = st.put_bytes (sample_key this.run_id sid) bytes s.store;
          blobs = blobs;
        }))

  -- After the swap of a stale claim.
  abbrev pub repended : ContentId → Site → Bool × st.Contents → ℕ × Site
  repended sid s (true, c) = push sid (record s { store = c })
  repended sid s (false, c) = (0, s)

  unfoldable pub plan_old :
      BatchCoordinator → ℕ → ContentId → SampleRecord → SampleState → Site → Planned
  unfolding push
  plan_old this now_ms sid rec (done blob t) s = ok (0, s)
  plan_old this now_ms sid rec pending s = ok (push sid s)
  plan_old this now_ms sid rec (failed reason t) s = ok (push sid s)
  plan_old this now_ms sid rec (running w started_at_ms) s =
      if ltb this.stale_after_ms (now_ms - started_at_ms)
      then try_repending rec this.run_id s.store >>= (λ r. ok (repended sid s r))
      else ok (0, s)

  unfoldable pub plan_row :
      BatchCoordinator → ℕ → ContentId → InputItem → Option Bytes → Site → Planned
  unfolding plan_new plan_old
  plan_row this now_ms sid item none s = plan_new this now_ms sid item s
  plan_row this now_ms sid item (some bytes) s = do
    rec ← decode bytes
    plan_old this now_ms sid rec rec.state s

module _ ⦃st : Storage⦄ ⦃codec : Codec SampleRecord⦄ ⦃objects : ObjectStore⦄ ⦃blake3 : Blake3⦄ where
  -- The row is read first; `others` is what other processes commit between that and the writes.
  unfoldable pub plan_item :
      BatchCoordinator
      → ℕ
      → ContentId
      → Bytes
      → (st.Contents → st.Contents)
      → InputItem
      → Site
      → Planned
  unfolding plan_row
  plan_item this now_ms model_content_id params others item s =
      let sid : ContentId = sample_id model_content_id item.prompt params item.input_idx in
      plan_row this now_ms sid item (st.get_bytes (sample_key this.run_id sid) s.store)
        (record s { store = others s.store })

  -- `now_ms` is read once, `params` is the encoding of the sampling parameters, and `others i` is what
  -- others commit during the i-th item.
  unfoldable pub scan_and_enqueue :
      BatchCoordinator
      → ℕ
      → List InputItem
      → ContentId
      → Bytes
      → (ℕ → st.Contents → st.Contents)
      → ℕ
      → Site
      → Planned
  unfolding plan_item
  scan_and_enqueue this now_ms [] model_content_id params others i s = ok (0, s)
  scan_and_enqueue this now_ms (item ∷ inputs) model_content_id params others i s = do
    (n, s₁) ← plan_item this now_ms model_content_id params (others i) item s
    (m, s₂) ← scan_and_enqueue this now_ms inputs model_content_id params others (i + 1) s₁
    ok (n + m, s₂)

abbrev pub sample_prefix : RunId → StorageKey
sample_prefix run_id = record {
  namespace = codes "infer";
  run_id = some run_id;
  path = codes "samples" ∷ [];
}

-- `matches!(rec.state, SampleState::Done { .. })`
abbrev pub is_done : SampleState → Bool
is_done (done blob t) = true
is_done _ = false

abbrev pub idx_leb : SampleRecord → SampleRecord → Bool
idx_leb a b = leb a.input_idx b.input_idx

module _ ⦃st : Storage⦄ ⦃codec : Codec SampleRecord⦄ where
  unfoldable pub load_sample : BatchCoordinator → ContentId → st.Contents → Result SampleRecord
  load_sample this sid c = do
    bytes ← or_internal "sample not found" (st.get_bytes (sample_key this.run_id sid) c)
    decode bytes

  unfoldable pub done_of : List (StorageKey × Bytes) → Result (List SampleRecord)
  done_of [] = ok []
  done_of ((key, bytes) ∷ rows) = do
    rec ← decode bytes
    out ← done_of rows
    ok (if is_done rec.state then rec ∷ out else out)

  unfoldable pub collect_done_records : BatchCoordinator → st.Contents → Result (List SampleRecord)
  unfolding done_of
  collect_done_records this c =
      done_of (st.scan_bytes (sample_prefix this.run_id) c) >>= λ out. ok (sort_by idx_leb out)
