-- ===== src/Coordinator/Steal.antt =====
-- crates/rollout-coordinator/src/steal.rs: the coordinator moves items from the busiest worker to an
-- idle one.
pub mod One
pub mod Request
pub mod Outcome
use rollout.Prelude.{
  ℕ, ◌+◌, ◌/◌, ◌==◌, ltb, ◌≡◌, Bool, true, false, List, [], ◌∷◌, Option, some, none, if◌then◌else◌,
  min, keep, take,
}
use rollout.Prelude.Sort.{sort_by, bytes_leb}
use rollout.Core.Ids.{Bytes, RunId, WorkerId, ContentId}
use rollout.Core.Errors.{Result, ok, err, ◌>>=◌}
use rollout.Core.Keys.{StorageKey}
use rollout.Store.{Storage, Codec, encode, decode}
use rollout.Coordinator.WorkItem.{
  WorkState, pending, running, WorkItemRecord, work_prefix, try_claim, try_repending,
}
use rollout.Coordinator.Ledger.{runs_on, backlog, busiest}

abbrev pub max_steal_batch : ℕ
max_steal_batch = 32

-- `backlog.div_ceil(2).min(MAX_STEAL_BATCH)`
abbrev pub batch_size : ℕ → ℕ
batch_size victim_backlog = min ((victim_backlog + 1) / 2) max_steal_batch

abbrev pub id_leb : WorkItemRecord → WorkItemRecord → Bool
id_leb a b = bytes_leb a.id b.id

module _ ⦃codec : Codec WorkItemRecord⦄ where
  -- `filter_map(|(_, bytes)| decode(&bytes).ok())`
  unfoldable pub decodable : List (StorageKey × Bytes) → List WorkItemRecord
  decodable [] = []
  decodable ((key, bytes) ∷ rows) =
      let rest = decodable rows in
      elim (codec.from_bytes bytes) [ some rec ↦ rec ∷ rest | none ↦ rest ]

module _ ⦃st : Storage⦄ ⦃codec : Codec WorkItemRecord⦄ where
  unfoldable pub victim_items : RunId → WorkerId → st.Contents → List WorkItemRecord
  unfolding decodable
  victim_items run_id victim c =
      sort_by id_leb
        (keep (λ rec. runs_on victim rec.state) (decodable (st.scan_bytes (work_prefix run_id) c)))

  -- The transaction commits what the claim left if it won, and is aborted if not.
  abbrev pub finish : st.Contents → Bool × st.Contents → Bool × st.Contents
  finish c (true, c₁) = (true, c₁)
  finish c (false, c₁) = (false, c)

  -- The claim by the thief, on the record that the first swap has written.
  unfoldable pub reclaim :
      RunId
      → WorkerId
      → ℕ
      → WorkItemRecord
      → st.Contents
      → Bool × st.Contents
      → Result (Bool × st.Contents)
  reclaim run_id thief now_ms rec c (true, c₁) = do
    r ← try_claim run_id (record { id = rec.id; state = pending }) thief now_ms c₁
    ok (finish c r)
  reclaim run_id thief now_ms rec c (false, c₁) = ok (false, c)

  -- One item: from the victim to pending, and from pending to the thief, in one transaction.
  unfoldable pub steal_one :
      RunId → WorkerId → ℕ → WorkItemRecord → st.Contents → Result (Bool × st.Contents)
  unfolding reclaim
  steal_one run_id thief now_ms rec c =
      try_repending run_id rec c >>= reclaim run_id thief now_ms rec c

  abbrev pub push_if :
      Bool → ContentId → List ContentId × st.Contents → List ContentId × st.Contents
  push_if true id (ids, c) = (id ∷ ids, c)
  push_if false id (ids, c) = (ids, c)

  -- The loop over the chosen items. Before each transaction others may write: `env` is what they do.
  unfoldable pub steal_loop :
      RunId
      → WorkerId
      → ℕ
      → (WorkItemRecord → st.Contents → st.Contents)
      → List WorkItemRecord
      → st.Contents
      → Result (List ContentId × st.Contents)
  unfolding steal_one
  steal_loop run_id thief now_ms env [] c = ok ([], c)
  steal_loop run_id thief now_ms env (rec ∷ recs) c = do
    r ← steal_one run_id thief now_ms rec (env rec c)
    rest ← steal_loop run_id thief now_ms env recs r.1
    ok (push_if r.0 rec.id rest)

  unfoldable pub steal_from :
      RunId
      → WorkerId
      → ℕ
      → (WorkItemRecord → st.Contents → st.Contents)
      → st.Contents
      → Option (WorkerId × ℕ)
      → Result (List ContentId × st.Contents)
  unfolding steal_loop victim_items
  steal_from run_id thief now_ms env c none = ok ([], c)
  steal_from run_id thief now_ms env c (some (victim, victim_backlog)) =
      if batch_size victim_backlog == 0
      then ok ([], c)
      else steal_loop run_id thief now_ms env
          (take (batch_size victim_backlog) (victim_items run_id victim c)) c

  -- The guard, the counts and the scan of the victim's items each read the store anew: `held` and
  -- `counted` are the contents of the first two, `c` those of the scan and of the transactions on.
  unfoldable pub handle_steal_request :
      RunId
      → WorkerId
      → ℕ
      → (WorkItemRecord → st.Contents → st.Contents)
      → st.Contents
      → st.Contents
      → st.Contents
      → Result (List ContentId × st.Contents)
  unfolding steal_from
  handle_steal_request run_id thief now_ms env held counted c = do
    n ← backlog run_id thief held
    if ltb 0 n
        then ok ([], c)
        else busiest run_id thief counted >>= steal_from run_id thief now_ms env c
