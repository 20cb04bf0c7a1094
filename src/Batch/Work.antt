-- ===== src/Batch/Work.antt =====
-- crates/rollout-runtime-batch/src/worker.rs: `run_one`, `run_loop` and `poll_preemption`.
-- An error ends the call, as in the plan.
use rollout.Prelude.{
  ℕ, zero, suc, ◌+◌, Bool, true, false, List, [], ◌∷◌, Option, none, some, if◌then◌else◌,
}
use rollout.Core.Ids.{Bytes, RunId, WorkerId, ContentId}
use rollout.Core.Errors.{Result, ok, err, ◌>>=◌, or_internal, fatal, internal}
use rollout.Core.Parse.{from_str}
use rollout.Store.{Storage, Codec, decode}
use rollout.Batch.{
  SampleState, running, done, failed, SampleRecord, sample_key, try_claim, try_complete, try_fail,
}
use rollout.Batch.Plan.{ObjectStore}

pub data RunOutcome : Type 0 where
  completed : RunOutcome
  failure : RunOutcome
  skipped : RunOutcome
  drained : RunOutcome

pub record BatchWorker : Type 0 where
  pub run_id : RunId
  pub worker_id : WorkerId
  pub sampling : Bytes
  pub stale_after_ms : ℕ

-- `InferenceBackend::generate` on one prompt: the texts, or the message of an error.
pub data Generated : Type 0 where
  texts : List Bytes → Generated
  refused : Bytes → Generated

-- Storage, object store, the queue in order, and the items acknowledged so far.
pub record Floor ⦃st : Storage⦄ ⦃objects : ObjectStore⦄ : Type 0 where
  pub store : st.Contents
  pub blobs : objects.Blobs
  pub queue : List (ℕ × Bytes)
  pub acked : List ℕ

-- What surrounds one call: the clock at the claim and at the end, the backend, `String::from_utf8`,
-- and what other workers commit between the read of the row and the claim, and between the claim and the
-- end.
pub record Around ⦃st : Storage⦄ : Type 0 where
  pub claim_now : ℕ
  pub end_now : ℕ
  pub generate : Bytes → Bytes → Generated
  pub is_utf8 : Bytes → Bool
  pub meanwhile : st.Contents → st.Contents
  pub others : st.Contents → st.Contents

-- `Vec::pop`
abbrev pub pop {ℓ} : {A : Type ℓ} → List A → Option A
pop [] = none
pop (x ∷ []) = some x
pop (x ∷ y ∷ ys) = pop (y ∷ ys)

abbrev pub parse_sample_id : Bytes → Result ContentId
parse_sample_id payload = or_internal "parse ContentId" (from_str payload)

abbrev pub is_terminal : SampleState → Bool
is_terminal (done blob t) = true
is_terminal (failed reason t) = true
is_terminal _ = false

module _ ⦃st : Storage⦄ ⦃codec : Codec SampleRecord⦄ ⦃objects : ObjectStore⦄ where
  abbrev pub Worked : Type 0
  Worked = Result (RunOutcome × Floor)

  -- `queue.ack(qid)` before the return
  abbrev pub ack_with : ℕ → RunOutcome → Floor → Worked
  ack_with qid outcome f = ok (outcome, record f { acked = qid ∷ f.acked })

  -- A swap that was lost is an error here.
  abbrev pub complete_with : ℕ → objects.Blobs → Floor → Bool × st.Contents → Worked
  complete_with qid blobs f (true, c) =
      ack_with qid completed (record f { store = c; blobs = blobs })
  complete_with qid blobs f (false, c) = err (fatal (internal "CAS Running->Done lost"))

  unfoldable pub finish_text :
      BatchWorker → Around → ℕ → SampleRecord → Option Bytes → Floor → Worked
  finish_text this around qid rec none f =
      err (fatal (internal "backend returned empty completion vec"))
  finish_text this around qid rec (some text) f = do
    (completion_blob, blobs) ← objects.put_blob text f.blobs
    r ← try_complete rec this.run_id completion_blob around.end_now f.store
    complete_with qid blobs f r

  -- The outcome of the swap to `Failed` is not looked at.
  unfoldable pub finish : BatchWorker → Around → ℕ → SampleRecord → Generated → Floor → Worked
  unfolding finish_text
  finish this around qid rec (texts completions) f =
      finish_text this around qid rec (pop completions) f
  finish this around qid rec (refused reason) f = do
    (applied, c) ← try_fail rec this.run_id reason around.end_now f.store
    ack_with qid failure (record f { store = c })

  unfoldable pub generate_for : BatchWorker → Around → ℕ → SampleRecord → Floor → Worked
  unfolding finish
  generate_for this around qid rec f = objects.get_blob rec.prompt_blob f.blobs >>= λ prompt_bytes.
      if around.is_utf8 prompt_bytes
      then finish this around qid rec (around.generate prompt_bytes this.sampling)
          (record f { store = around.others f.store })
      else err (fatal (internal "prompt blob not UTF-8"))

  -- With the outcome of the claim.
  abbrev pub claimed : BatchWorker → Around → ℕ → SampleRecord → Floor → Bool × st.Contents → Worked
  claimed this around qid rec f (true, c) =
      generate_for this around qid (record rec { state = running this.worker_id around.claim_now })
        (record f { store = c })
  claimed this around qid rec f (false, c) = ack_with qid skipped f

  unfoldable pub run_record : BatchWorker → Around → ℕ → SampleRecord → Floor → Worked
  unfolding generate_for
  run_record this around qid rec f =
      if is_terminal rec.state
      then ack_with qid skipped f
      else try_claim rec this.run_id this.worker_id around.claim_now this.stale_after_ms f.store
        >>= claimed this around qid rec f

  unfoldable pub run_row : BatchWorker → Around → ℕ → Option Bytes → Floor → Worked
  unfolding run_record
  run_row this around qid none f = ack_with qid skipped f
  run_row this around qid (some bytes) f = decode bytes >>= λ rec. run_record this around qid rec f

  unfoldable pub run_item : BatchWorker → Around → ℕ × Bytes → Floor → Worked
  unfolding run_row
  run_item this around (qid, payload) f = parse_sample_id payload >>= λ sid.
      run_row this around qid (st.get_bytes (sample_key this.run_id sid) f.store)
        (record f { store = around.meanwhile f.store })

  unfoldable pub run_from : BatchWorker → Around → List (ℕ × Bytes) → Floor → Worked
  unfolding run_item
  run_from this around [] f = ok (drained, f)
  run_from this around (item ∷ queue) f = run_item this around item (record f { queue = queue })

  unfoldable pub run_one : BatchWorker → Around → Floor → Worked
  unfolding run_from
  run_one this around f = run_from this around f.queue f

  -- The loop, on fuel: none is left only if there was too little. `world` and `stop_pull` give what
  -- surrounds each turn and the flag as the turn reads it.
  abbrev pub next_turn :
      RunOutcome × Floor
      → ℕ
      → (ℕ → Floor → Option (Result (ℕ × Floor)))
      → Option (Result (ℕ × Floor))
  next_turn (drained, f) completed_so_far again = some (ok (completed_so_far, f))
  next_turn (completed, f) completed_so_far again = again (completed_so_far + 1) f
  next_turn (failure, f) completed_so_far again = again completed_so_far f
  next_turn (skipped, f) completed_so_far again = again completed_so_far f

  unfoldable pub run_loop :
      ℕ → BatchWorker → (ℕ → Around) → (ℕ → Bool) → ℕ → ℕ → Floor → Option (Result (ℕ × Floor))
  run_loop zero this world stop_pull turn n f = none
  run_loop (suc fuel) this world stop_pull turn n f =
      if stop_pull turn then some (ok (n, f)) else elim (run_one this (world turn) f) [
        | err e ↦ some (err e)
        | ok r ↦ next_turn r n (λ m g. run_loop fuel this world stop_pull (turn + 1) m g)
      ]

-- A notice sets the flag; without one the flag is left as it is.
unfoldable pub poll_preemption : Result (Option ℕ) → Bool → Result (Option ℕ × Bool)
poll_preemption (err e) stop_pull = err e
poll_preemption (ok none) stop_pull = ok (none, stop_pull)
poll_preemption (ok (some lead)) stop_pull = ok (some lead, true)
