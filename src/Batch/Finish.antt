-- ===== src/Batch/Finish.antt =====
-- What each outcome of a worker's turn says of the sample's row.
use rollout.Prelude.{
  ℕ, ◌≡◌, refl, Bool, true, false, List, ◌∷◌, Option, none, some, Bool-cases, inl, inr, subst, sym,
  ◌⊎◌,
}
use rollout.Core.Ids.{Bytes, RunId, WorkerId, ContentId}
use rollout.Core.Errors.{ok, err, >>=-eq-ok, ok-injective}
use rollout.Store.{Storage, Codec, decode}
use rollout.Batch.{
  running, done, failed, SampleRecord, sample_key, claimable, try_claim, try_complete, try_fail,
}
use rollout.Batch.Swap.{Holds, Swapped, swap_sample-Swapped, with_state}
use rollout.Batch.Plan.{ObjectStore}
use rollout.Batch.Work.{
  RunOutcome, completed, failure, skipped, drained, BatchWorker, Generated, texts, refused, Floor,
  Around, pop, parse_sample_id, is_terminal, complete_with, finish_text, finish, generate_for,
  claimed, run_record, run_row, run_item, run_from, run_one,
}

module _ ⦃st : Storage⦄ ⦃codec : Codec SampleRecord⦄ ⦃objects : ObjectStore⦄ where
  abbrev pub running_of : BatchWorker → Around → SampleRecord → SampleRecord
  running_of this around rec = with_state rec (running this.worker_id around.claim_now)

  -- What the backend answered to the prompt of the record.
  pub record Prompted (this : BatchWorker) (around : Around) (rec : SampleRecord)
      (blobs : objects.Blobs) (answer : Generated) : Type 0 where
    pub prompt : Bytes
    pub fetched : objects.get_blob rec.prompt_blob blobs ≡ ok prompt
    pub answered : around.generate prompt this.sampling ≡ answer

  -- The record is that of the row which the item names.
  pub record Named (this : BatchWorker) (payload : Bytes) (c : st.Contents) (rec : SampleRecord)
      : Type 0 where
    pub sid : ContentId
    pub parsed : parse_sample_id payload ≡ ok sid
    pub bytes : Bytes
    pub row : st.get_bytes (sample_key this.run_id sid) c ≡ some bytes
    pub decoded : decode bytes ≡ ok rec

  -- A claim either was tried, or answered that it lost without touching the store.
  try_claim-split :
      (rec : SampleRecord) (run_id : RunId) (w : WorkerId) (now stale : ℕ) (c : st.Contents)
      (r : Bool × st.Contents)
      → try_claim rec run_id w now stale c ≡ ok r
      → ((claimable now stale rec.state ≡ true) × Swapped run_id rec (running w now) c r.0 r.1)
        ⊎ ((false, c) ≡ r)
  unfolding try_claim
  try_claim-split rec run_id w now stale c r h = elim (Bool-cases (claimable now stale rec.state)) [
    | inl a ↦ inl (a, swap_sample-Swapped run_id rec (running w now) c (rw (a, try_claim) at h))
    | inr a ↦ inr (ok-injective (false, c) r (rw (a, try_claim) at h))
  ]

module _ ⦃st : Storage⦄ ⦃codec : Codec SampleRecord⦄ ⦃objects : ObjectStore⦄
    (IsNamed : SampleRecord → Type 0) (this : BatchWorker) (around : Around) where
  -- A claim that this worker was granted: from the contents `c₀` to the contents `c₁`.
  pub record Claim (rec : SampleRecord) (c₀ c₁ : st.Contents) : Type 0 where
    pub named : IsNamed rec
    pub allowed : claimable around.claim_now this.stale_after_ms rec.state ≡ true
    pub held : Holds this.run_id rec c₀
    pub taken : Holds this.run_id (running_of this around rec) c₁

  -- A claim, at the end of the generation the worker's own row still in place of it, and then the last
  -- text of the backend in a blob that the row names.
  pub record Delivered (c₀ c' : st.Contents) (blobs blobs' : objects.Blobs) : Type 0 where
    pub rec : SampleRecord
    pub between : st.Contents
    pub claim : Claim rec c₀ between
    pub completions : List Bytes
    pub prompted : Prompted this around rec blobs (texts completions)
    pub text : Bytes
    pub last : pop completions ≡ some text
    pub blob : ContentId
    pub kept_text : objects.put_blob text blobs ≡ ok (blob, blobs')
    pub still_own : Holds this.run_id (running_of this around rec) (around.others between)
    pub delivered : Holds this.run_id (with_state rec (done blob around.end_now)) c'

  -- A claim, and then the swap of the worker's own row to the reason of the backend; it applies where
  -- that row still stands, and otherwise nothing is written.
  pub record Refusal (c₀ c' : st.Contents) (blobs : objects.Blobs) : Type 0 where
    pub rec : SampleRecord
    pub between : st.Contents
    pub claim : Claim rec c₀ between
    pub reason : Bytes
    pub prompted : Prompted this around rec blobs (refused reason)
    pub applied : Bool
    pub swapped :
        Swapped this.run_id
          (running_of this around rec)
          (failed reason around.end_now)
          (around.others between)
          applied
          c'

  abbrev pub Meaning : st.Contents → objects.Blobs → RunOutcome → Floor → Type 0
  Meaning c₀ blobs completed f' = Delivered c₀ f'.store blobs f'.blobs
  Meaning c₀ blobs failure f' = Refusal c₀ f'.store blobs
  Meaning c₀ blobs skipped f' = f'.store ≡ c₀
  Meaning c₀ blobs drained f' = ⊥

  -- The outcome, that the rest of the queue is as it was, and what is acknowledged.
  abbrev pub Reported :
      st.Contents → objects.Blobs → List (ℕ × Bytes) → List ℕ → RunOutcome × Floor → Type 0
  Reported c₀ blobs queue acked p =
      Meaning c₀ blobs p.0 p.1 × (p.1.queue ≡ queue) × (p.1.acked ≡ acked)

  ok-Reported :
      (c₀ : st.Contents) (blobs : objects.Blobs) (queue : List (ℕ × Bytes)) (acked : List ℕ)
      (r p : RunOutcome × Floor)
      → ok r ≡ ok p
      → Reported c₀ blobs queue acked r
      → Reported c₀ blobs queue acked p
  ok-Reported c₀ blobs queue acked r p e h =
      subst (Reported c₀ blobs queue acked) (ok-injective r p e) h

  complete_with-Reported :
      (qid : ℕ) (c₀ c₁ : st.Contents) (rec : SampleRecord) (completions : List Bytes) (text : Bytes)
      (blob : ContentId) (blobs : objects.Blobs) (f : Floor) (r : Bool × st.Contents)
      (p : RunOutcome × Floor)
      → Claim rec c₀ c₁
      → Prompted this around rec f.blobs (texts completions)
      → pop completions ≡ some text
      → objects.put_blob text f.blobs ≡ ok (blob, blobs)
      → f.store ≡ around.others c₁
      → Swapped this.run_id (running_of this around rec) (done blob around.end_now) f.store r.0 r.1
      → complete_with qid blobs f r ≡ ok p
      → Reported c₀ f.blobs f.queue (qid ∷ f.acked) p
  complete_with-Reported qid c₀ c₁ rec completions text blob blobs f (true, c) p k g l put e w h =
      ok-Reported c₀ f.blobs f.queue (qid ∷ f.acked) _ p h (
        record {
          rec = rec;
          between = c₁;
          claim = k;
          completions = completions;
          prompted = g;
          text = text;
          last = l;
          blob = blob;
          kept_text = put;
          still_own = subst (Holds this.run_id (running_of this around rec)) e (w.before refl);
          delivered = w.after refl;
        },
        refl,
        refl,
      )
  complete_with-Reported qid c₀ c₁ rec cs text blob blobs f (false, c) p k g l put e w h = cc

  finish_text-Reported :
      (qid : ℕ) (c₀ c₁ : st.Contents) (rec : SampleRecord) (completions : List Bytes)
      (text : Option Bytes) (f : Floor) (p : RunOutcome × Floor)
      → Claim rec c₀ c₁
      → Prompted this around rec f.blobs (texts completions)
      → pop completions ≡ text
      → f.store ≡ around.others c₁
      → finish_text this around qid (running_of this around rec) text f ≡ ok p
      → Reported c₀ f.blobs f.queue (qid ∷ f.acked) p
  unfolding finish_text try_complete
  finish_text-Reported qid c₀ c₁ rec completions none f p k g l e h = cc
  finish_text-Reported qid c₀ c₁ rec completions (some text) f p k g l e h =
      let (b, e₁, h₁) = >>=-eq-ok (objects.put_blob text f.blobs) _ h in
      let (r, e₂, h₂) =
        >>=-eq-ok (try_complete (running_of this around rec) this.run_id b.0 around.end_now f.store)
          _ h₁ in
      complete_with-Reported qid c₀ c₁ rec completions text b.0 b.1 f r p k g l e₁ e
        (swap_sample-Swapped this.run_id (running_of this around rec) (done b.0 around.end_now)
          f.store e₂)
        h₂

  finish-Reported :
      (qid : ℕ) (c₀ c₁ : st.Contents) (rec : SampleRecord) (answer : Generated) (f : Floor)
      (p : RunOutcome × Floor)
      → Claim rec c₀ c₁
      → Prompted this around rec f.blobs answer
      → f.store ≡ around.others c₁
      → finish this around qid (running_of this around rec) answer f ≡ ok p
      → Reported c₀ f.blobs f.queue (qid ∷ f.acked) p
  unfolding finish try_fail
  finish-Reported qid c₀ c₁ rec (texts completions) f p k g e h =
      finish_text-Reported qid c₀ c₁ rec completions (pop completions) f p k g refl e h
  finish-Reported qid c₀ c₁ rec (refused reason) f p k g e h =
      let own = running_of this around rec in
      let (r, e₁, h₁) = >>=-eq-ok (try_fail own this.run_id reason around.end_now f.store) _ h in
      let w = swap_sample-Swapped this.run_id own (failed reason around.end_now) f.store e₁ in
      ok-Reported c₀ f.blobs f.queue (qid ∷ f.acked) _ p h₁ (
        record {
          rec = rec;
          between = c₁;
          claim = k;
          reason = reason;
          prompted = g;
          applied = r.0;
          swapped =
              subst (λ c. Swapped this.run_id own (failed reason around.end_now) c r.0 r.1) e w;
        },
        refl,
        refl,
      )

  generate_for-Reported :
      (qid : ℕ) (c₀ : st.Contents) (rec : SampleRecord) (f : Floor) (p : RunOutcome × Floor)
      → Claim rec c₀ f.store
      → generate_for this around qid (running_of this around rec) f ≡ ok p
      → Reported c₀ f.blobs f.queue (qid ∷ f.acked) p
  unfolding generate_for
  generate_for-Reported qid c₀ rec f p k h =
      let (prompt, e₁, h₁) = >>=-eq-ok (objects.get_blob rec.prompt_blob f.blobs) _ h in
      elim (Bool-cases (around.is_utf8 prompt)) [
        | inl q ↦
            finish-Reported qid c₀ f.store rec (around.generate prompt this.sampling)
              (record f { store = around.others f.store }) p k
              (record { prompt = prompt; fetched = e₁; answered = refl }) refl (rw q at h₁)
        | inr q ↦ let no : err _ ≡ ok p = rw q at h₁ in cc
      ]

  claimed-Reported :
      (qid : ℕ) (rec : SampleRecord) (f : Floor) (r : Bool × st.Contents) (p : RunOutcome × Floor)
      → IsNamed rec
      → claimable around.claim_now this.stale_after_ms rec.state ≡ true
      → Swapped this.run_id rec (running this.worker_id around.claim_now) f.store r.0 r.1
      → claimed this around qid rec f r ≡ ok p
      → Reported f.store f.blobs f.queue (qid ∷ f.acked) p
  claimed-Reported qid rec f (true, c) p n allowed w h =
      generate_for-Reported qid f.store rec (record f { store = c }) p
        (record { named = n; allowed = allowed; held = w.before refl; taken = w.after refl }) h
  claimed-Reported qid rec f (false, c) p n allowed w h =
      ok-Reported f.store f.blobs f.queue (qid ∷ f.acked) _ p h (refl, refl, refl)

  run_record-Reported :
      (qid : ℕ) (rec : SampleRecord) (f : Floor) (p : RunOutcome × Floor)
      → IsNamed rec
      → run_record this around qid rec f ≡ ok p
      → Reported f.store f.blobs f.queue (qid ∷ f.acked) p
  unfolding run_record
  run_record-Reported qid rec f p n h = elim (Bool-cases (is_terminal rec.state)) [
    | inl t ↦
        ok-Reported f.store f.blobs f.queue (qid ∷ f.acked) _ p (rw (t, run_record) at h)
          (refl, refl, refl)
    | inr t ↦
        let (r, e, h₁) =
          >>=-eq-ok
            (try_claim rec this.run_id this.worker_id around.claim_now this.stale_after_ms f.store)
            (claimed this around qid rec f) (rw (t, run_record) at h) in
        elim (try_claim-split rec this.run_id this.worker_id around.claim_now this.stale_after_ms
          f.store r e) [
            | inl (a, w) ↦ claimed-Reported qid rec f r p n a w h₁
            | inr same ↦
                let back : claimed this around qid rec f (false, f.store) ≡ ok p =
                  subst (λ (q : Bool × st.Contents). claimed this around qid rec f q ≡ ok p)
                    (sym same) h₁ in
                ok-Reported f.store f.blobs f.queue (qid ∷ f.acked) _ p back (refl, refl, refl)
          ]
  ]

module _ ⦃st : Storage⦄ ⦃codec : Codec SampleRecord⦄ ⦃objects : ObjectStore⦄ where
  -- What a turn says that took an item from the floor.
  abbrev pub TurnReported : BatchWorker → Around → ℕ × Bytes → Floor → RunOutcome × Floor → Type 0
  TurnReported this around item f =
      Reported (Named this item.1 f.store) this around (around.meanwhile f.store) f.blobs f.queue
        (item.0 ∷ f.acked)

  run_row-Reported :
      (this : BatchWorker) (around : Around) (item : ℕ × Bytes) (sid : ContentId)
      (row : Option Bytes) (f : Floor) (p : RunOutcome × Floor)
      → parse_sample_id item.1 ≡ ok sid
      → st.get_bytes (sample_key this.run_id sid) f.store ≡ row
      → run_row this around item.0 row (record f { store = around.meanwhile f.store }) ≡ ok p
      → TurnReported this around item f p
  unfolding run_row
  run_row-Reported this around item sid none f p e at_row h =
      ok-Reported (Named this item.1 f.store) this around (around.meanwhile f.store) f.blobs f.queue
        (item.0 ∷ f.acked) _ p h (refl, refl, refl)
  run_row-Reported this around item sid (some bytes) f p e at_row h =
      let (rec, d, h₁) =
        >>=-eq-ok (decode bytes)
          (λ rec. run_record this around item.0 rec (record f { store = around.meanwhile f.store }))
          h in
      run_record-Reported (Named this item.1 f.store) this around item.0 rec
        (record f { store = around.meanwhile f.store }) p
        (record { sid = sid; parsed = e; bytes = bytes; row = at_row; decoded = d }) h₁

  pub run_item-Reported :
      (this : BatchWorker) (around : Around) (item : ℕ × Bytes) (f : Floor) (p : RunOutcome × Floor)
      → run_item this around item f ≡ ok p
      → TurnReported this around item f p
  unfolding run_item
  run_item-Reported this around (qid, payload) f p h =
      let (sid, e, h₁) = >>=-eq-ok (parse_sample_id payload) _ h in
      run_row-Reported this around (qid, payload) sid
        (st.get_bytes (sample_key this.run_id sid) f.store) f p e refl h₁

  -- A turn that returns on a queue with an item takes that item and no other, and acknowledges it. If
  -- it says `completed`, the worker had claimed the claimable record of the row that the item names, its
  -- own claim still stood when the generation ended, and the row now holds that record as done, with the
  -- blob of the last text that the backend gave to its prompt. If it says `failure`, the worker had
  -- claimed that record in the same way and the backend had refused its prompt; where its own claim still
  -- stood the row now holds the record as failed for that reason, and otherwise nothing more was written.
  -- If it says `skipped`, it has written nothing; it never says `drained`. Others may write between the
  -- read of the row and the claim, and between the claim and the end.
  pub run_one-Reported :
      (this : BatchWorker) (around : Around) (item : ℕ × Bytes) (queue : List (ℕ × Bytes))
      (f : Floor) (p : RunOutcome × Floor)
      → f.queue ≡ item ∷ queue
      → run_one this around f ≡ ok p
      → TurnReported this around item (record f { queue = queue }) p
  unfolding run_one run_from
  run_one-Reported this around item queue f p e h =
      run_item-Reported this around item (record f { queue = queue }) p (rw (e, run_from) at h)
