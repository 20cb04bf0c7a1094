-- ===== src/Harness/Eval/Once.antt =====
-- A job runs once, and what a job says that has lost.
use rollout.Prelude.{ℕ, ◌≡◌, ◌≢◌, refl, subst, sym, ◌∙◌, Bool, none, Bool-cases, inl, inr}
use rollout.Core.Ids.{Bytes, RunId, WorkerId, ContentId}
use rollout.Core.Errors.{Result, ok, err, >>=-eq-ok, ok-injective}
use rollout.Core.Keys.{key_eq_refl}
use rollout.Store.{Storage, Codec, encode, decode-encode}
use rollout.Coordinator.WorkItem.{WorkState, WorkItemRecord, work_key, try_claim, try_complete}
use rollout.Coordinator.WorkItem.Swap.{Holds, Holds-unique, Swapped, swap_state-Swapped}
use rollout.Batch.Plan.{ObjectStore}
use rollout.Harness.Eval.{
  ExampleResult, pending_item, running_item, entry, completed, claim_and_complete, after_entry,
  run_example_job,
}

abbrev pub done_item : ContentId → ContentId → WorkItemRecord
done_item work_id result_id = record { id = work_id; state = WorkState.done result_id }

module _ ⦃st : Storage⦄ ⦃items : Codec WorkItemRecord⦄ ⦃objects : ObjectStore⦄ where
  completed-eq-ok :
      (id : ContentId) (blobs : objects.Blobs) (r : Result (Bool × st.Contents))
      {result_id : ContentId} {c' : st.Contents} {blobs' : objects.Blobs}
      → completed id blobs r ≡ ok (result_id, c', blobs')
      → (won : Bool) × (r ≡ ok (won, c')) × (id ≡ result_id) × (blobs ≡ blobs')
  completed-eq-ok id blobs (err e) h = absurd (cc)
  completed-eq-ok id blobs (ok (won, c)) h = (won, cc, cc, cc)

module _ ⦃st : Storage⦄ ⦃items : Codec WorkItemRecord⦄ {F : Type 0}
    ⦃results : Codec (ExampleResult F)⦄ ⦃objects : ObjectStore⦄ (run_id : RunId)
    (work_id : ContentId) where
  -- The steps of an undisturbed job that returned.
  record Steps (worker_id : WorkerId) (result : ExampleResult F) (now_ms : ℕ) (c c' : st.Contents)
      (blobs blobs' : objects.Blobs) (result_id : ContentId) : Type 0 where
    claimed : Bool
    between : st.Contents
    claim :
        Swapped run_id (pending_item work_id) (WorkState.running worker_id now_ms) c claimed between
    blob : Bytes
    encoded : encode result ≡ ok blob
    put : objects.put_blob blob blobs ≡ ok (result_id, blobs')
    won : Bool
    complete :
        Swapped run_id
          (running_item work_id worker_id now_ms)
          (WorkState.done result_id)
          between
          won
          c'

  steps :
      (worker_id : WorkerId) (result : ExampleResult F) (now_ms : ℕ) (blobs blobs' : objects.Blobs)
      (c c' : st.Contents) (result_id : ContentId)
      → claim_and_complete (λ n d. d) run_id worker_id work_id result now_ms blobs c
        ≡ ok (result_id, c', blobs')
      → Steps worker_id result now_ms c c' blobs blobs' result_id
  unfolding try_claim try_complete
  steps worker_id result now_ms blobs blobs' c c' result_id ran =
      let (claim, e₁, r₁) =
        >>=-eq-ok (try_claim run_id (pending_item work_id) worker_id now_ms c) _ ran in
      let (blob, e₂, r₂) = >>=-eq-ok (encode result) _ r₁ in
      let (stored, e₃, r₃) = >>=-eq-ok (objects.put_blob blob blobs) _ r₂ in
      let (won, e₄, same, kept) = completed-eq-ok stored.0 stored.1 _ r₃ in
      record {
        claimed = claim.0;
        between = claim.1;
        claim = swap_state-Swapped run_id (pending_item work_id) _ c e₁;
        blob = blob;
        encoded = e₂;
        put = cc (e₃, same, kept);
        won = won;
        complete =
            subst
              (λ id.
                Swapped run_id (running_item work_id worker_id now_ms) (WorkState.done id) claim.1
                  won c')
              same (swap_state-Swapped run_id (running_item work_id worker_id now_ms) _ claim.1 e₄);
      }

  -- Undisturbed, a job on an item without a row leaves it done with the id that the job returns; any
  -- later job on the item, by any worker, with any result and time and whatever others write, returns
  -- that id and writes nothing.
  pub job_runs_once :
      (worker_id : WorkerId) (result : ExampleResult F) (now_ms : ℕ) (c c' : st.Contents)
      (blobs blobs' : objects.Blobs) (result_id : ContentId)
      (others : ℕ → st.Contents → st.Contents) (worker_id' : WorkerId) (result' : ExampleResult F)
      (now_ms' : ℕ) (blobs'' : objects.Blobs)
      → st.get_bytes (work_key run_id work_id) c ≡ none
      → run_example_job (λ n d. d) run_id worker_id work_id result now_ms c blobs
        ≡ ok (result_id, c', blobs')
      → Holds run_id (done_item work_id result_id) c'
        × (run_example_job others run_id worker_id' work_id result' now_ms' c' blobs''
            ≡ ok (result_id, c', blobs''))
  unfolding run_example_job
  job_runs_once worker_id result now_ms c c' blobs blobs' result_id others worker_id' result'
        now_ms' blobs'' fresh ran =
      let (first, e₀, ran₀) =
        >>=-eq-ok (entry run_id work_id none c)
          (after_entry (λ n d. d) run_id worker_id work_id result now_ms c blobs)
          (rw fresh at ran) in
      let (bytes, e, seed) = >>=-eq-ok (encode (pending_item work_id)) _ e₀ in
      let ran₁ =
        subst
          (λ x.
            after_entry (λ n d. d) run_id worker_id work_id result now_ms c blobs x
            ≡ ok (result_id, c', blobs'))
          (sym (ok-injective _ _ seed)) ran₀ in
      let seeded : Holds run_id (pending_item work_id)
          (st.put_bytes (work_key run_id work_id) bytes c) =
        record {
          bytes = bytes;
          encoded = e;
          stored =
              rw
                (
                  st.get-put (work_key run_id work_id) (work_key run_id work_id) bytes c,
                  key_eq_refl (work_key run_id work_id),
                )
                refl;
        } in
      let ran_so =
        steps worker_id result now_ms blobs blobs' (st.put_bytes (work_key run_id work_id) bytes c)
          c' result_id ran₁ in
      let h : Holds run_id (done_item work_id result_id) c' =
        ran_so.complete.after
          (ran_so.complete.hit (ran_so.claim.after (ran_so.claim.hit seeded))) in
      (h, rw (h.stored, entry, decode-encode (done_item work_id result_id) h.encoded) refl)

  -- A job whose item runs elsewhere, under another worker or with another start, leaves the store as
  -- it is, and still returns the id of its own result as if it had been recorded.
  pub lost_job_reports_success :
      (worker_id : WorkerId) (result : ExampleResult F) (now_ms : ℕ) (c c' : st.Contents)
      (blobs blobs' : objects.Blobs) (result_id : ContentId) (other : WorkerId) (started_at_ms : ℕ)
      → Holds run_id (running_item work_id other started_at_ms) c
      → running_item work_id other started_at_ms ≢ running_item work_id worker_id now_ms
      → run_example_job (λ n d. d) run_id worker_id work_id result now_ms c blobs
        ≡ ok (result_id, c', blobs')
      → (c' ≡ c)
        × ((blob : Bytes) × (encode result ≡ ok blob)
            × (objects.put_blob blob blobs ≡ ok (result_id, blobs')))
  unfolding run_example_job
  lost_job_reports_success worker_id result now_ms c c' blobs blobs' result_id other started_at_ms h
        ne ran =
      by_steps (
        steps worker_id result now_ms blobs blobs' c c' result_id (
          rw (h.stored, entry, decode-encode (running_item work_id other started_at_ms) h.encoded)
            at ran))
    where
      by_steps :
          Steps worker_id result now_ms c c' blobs blobs' result_id
          → (c' ≡ c)
            × ((blob : Bytes) × (encode result ≡ ok blob)
                × (objects.put_blob blob blobs ≡ ok (result_id, blobs')))
      by_steps s = elim (Bool-cases s.claimed) [
        | inl won ↦ absurd (cc (Holds-unique refl h (s.claim.before won)))
        | inr lost ↦
            let kept : s.between ≡ c = s.claim.unchanged lost in
            elim (Bool-cases s.won) [
              | inl won ↦ absurd (ne (Holds-unique refl (rw kept h) (s.complete.before won)))
              | inr lost' ↦ (s.complete.unchanged lost' ∙ kept, (s.blob, s.encoded, s.put))
            ]
      ]
