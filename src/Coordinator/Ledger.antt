-- ===== src/Coordinator/Ledger.antt =====
-- crates/rollout-coordinator/src/ledger.rs: the dispatch queue, and the backlog of each worker.
pub mod Dispatch
pub mod Busiest
use rollout.Prelude.{
  ℕ, ◌+◌, ◌==◌, ltb, leb, ◌≡◌, Bool, true, false, List, [], ◌∷◌, Option, some, none, codes,
  if◌then◌else◌, ◌||◌, ◌&&◌, not,
}
use rollout.Prelude.Sort.{sort_by, last?, option_leb}
use rollout.Core.Ids.{Bytes, RunId, WorkerId, ContentId}
use rollout.Core.Errors.{Result, ok, err, ◌>>=◌}
use rollout.Core.Keys.{StorageKey}
use rollout.Core.Externals.{Blake3, UlidText}
use rollout.Store.{Storage, Codec, encode, decode}
use rollout.Coordinator.WorkItem.{
  WorkState, pending, running, done, failed, WorkItemRecord, work_key, work_prefix, try_claim,
}

module _ ⦃ulids : UlidText⦄ where
  abbrev pub queue_key : RunId → ℕ → StorageKey
  queue_key run_id ulid = record {
    namespace = codes "queue_items";
    run_id = some run_id;
    path = codes "q" ∷ ulids.ulid_str ulid ∷ [];
  }

abbrev pub queue_prefix : RunId → StorageKey
queue_prefix run_id = record {
  namespace = codes "queue_items";
  run_id = some run_id;
  path = codes "q" ∷ [];
}

-- Entries by the last segment of their key.
abbrev pub entry_leb : StorageKey × Bytes → StorageKey × Bytes → Bool
entry_leb a b = option_leb (last? a.0.path) (last? b.0.path)

abbrev pub head? {ℓ} : {A : Type ℓ} → List A → Option A
head? [] = none
head? (x ∷ xs) = some x

module _ ⦃st : Storage⦄ ⦃ulids : UlidText⦄ where
  -- `ulid` is the value of `Ulid::new()`.
  unfoldable pub enqueue : RunId → ℕ → Bytes → st.Contents → st.Contents
  enqueue run_id ulid payload c = st.put_bytes (queue_key run_id ulid) payload c

module _ ⦃st : Storage⦄ where
  unfoldable pub next_pending_entry : RunId → st.Contents → Option (StorageKey × Bytes)
  next_pending_entry run_id c = head? (sort_by entry_leb (st.scan_bytes (queue_prefix run_id) c))

module _ ⦃st : Storage⦄ ⦃blake3 : Blake3⦄ where
  unfoldable pub next_pending : RunId → st.Contents → Option (ContentId × Bytes)
  unfolding next_pending_entry
  next_pending run_id c = elim (next_pending_entry run_id c) [
    | none ↦ none
    | some (key, payload) ↦ some (blake3.content_of payload, payload)
  ]

module _ ⦃st : Storage⦄ ⦃codec : Codec WorkItemRecord⦄ ⦃blake3 : Blake3⦄ where
  -- After a claim that won, the queue entry goes in the same transaction.
  abbrev pub consume : StorageKey → ContentId → Bool × st.Contents → Option ContentId × st.Contents
  consume entry_key work_id (true, c) = (some work_id, st.delete entry_key c)
  consume entry_key work_id (false, c) = (none, c)

  unfoldable pub dispatch_entry :
      RunId
      → WorkerId
      → ℕ
      → StorageKey × Bytes
      → st.Contents
      → Result (Option ContentId × st.Contents)
  dispatch_entry run_id worker_id now_ms (entry_key, payload) c = do
    let work_id = blake3.content_of payload
    let rec : WorkItemRecord = record { id = work_id; state = pending }
    bytes ← encode rec
    r ← try_claim run_id rec worker_id now_ms (st.put_bytes (work_key run_id work_id) bytes c)
    ok (consume entry_key work_id r)

  -- The entry is read from the committed contents, and the writes go to the caller's transaction.
  unfoldable pub dispatch :
      RunId → WorkerId → ℕ → st.Contents → st.Contents → Result (Option ContentId × st.Contents)
  unfolding dispatch_entry
  dispatch run_id worker_id now_ms committed c = elim (next_pending_entry run_id committed) [
    | none ↦ ok (none, c)
    | some entry ↦ dispatch_entry run_id worker_id now_ms entry c
  ]

-- `Running { worker_id: w, .. } if w == worker_id`
abbrev pub runs_on : WorkerId → WorkState → Bool
runs_on worker_id (running w t) = w == worker_id
runs_on worker_id _ = false

abbrev pub count_running : WorkerId → List WorkItemRecord → ℕ
count_running worker_id [] = 0
count_running worker_id (rec ∷ recs) =
    (if runs_on worker_id rec.state then 1 else 0) + count_running worker_id recs

-- `HashMap<WorkerId, usize>` as the list of its entries.
abbrev pub Counts : Type 0
Counts = List (WorkerId × ℕ)

-- `*counts.entry(w).or_insert(0) += 1`
unfoldable pub bump : WorkerId → Counts → Counts
bump w [] = (w, 1) ∷ []
bump w ((v, n) ∷ cs) = if v == w then (v, n + 1) ∷ cs else (v, n) ∷ bump w cs

unfoldable pub tally_one : WorkerId → WorkState → Counts → Counts
unfolding bump
tally_one exclude (running w t) cs = if w == exclude then cs else bump w cs
tally_one exclude _ cs = cs

unfoldable pub tally : WorkerId → List WorkItemRecord → Counts → Counts
unfolding tally_one
tally exclude [] cs = cs
tally exclude (rec ∷ recs) cs = tally exclude recs (tally_one exclude rec.state cs)

-- Whether `b` is the greater of two entries, or as great: by count, then by worker.
abbrev pub entry_le : WorkerId × ℕ → WorkerId × ℕ → Bool
entry_le a b = ltb a.1 b.1 || ((a.1 == b.1) && leb a.0 b.0)

-- `max_by`
unfoldable pub max_from : WorkerId × ℕ → Counts → WorkerId × ℕ
max_from best [] = best
max_from best (e ∷ es) = max_from (if entry_le best e then e else best) es

unfoldable pub max_entry : Counts → Option (WorkerId × ℕ)
unfolding max_from
max_entry [] = none
max_entry (e ∷ es) = some (max_from e es)

module _ ⦃codec : Codec WorkItemRecord⦄ where
  -- The rows of a scan, decoded in order; the first that does not decode is an error.
  unfoldable pub decode_all : List (StorageKey × Bytes) → Result (List WorkItemRecord)
  decode_all [] = ok []
  decode_all ((key, bytes) ∷ rows) = do rec ← decode bytes; recs ← decode_all rows; ok (rec ∷ recs)

module _ ⦃st : Storage⦄ ⦃codec : Codec WorkItemRecord⦄ where
  unfoldable pub backlog : RunId → WorkerId → st.Contents → Result ℕ
  unfolding decode_all
  backlog run_id worker_id c = decode_all (st.scan_bytes (work_prefix run_id) c) >>= λ recs.
      ok (count_running worker_id recs)

  unfoldable pub busiest : RunId → WorkerId → st.Contents → Result (Option (WorkerId × ℕ))
  unfolding decode_all tally max_entry
  busiest run_id exclude c = decode_all (st.scan_bytes (work_prefix run_id) c) >>= λ recs.
      ok (max_entry (tally exclude recs []))
