-- ===== src/Batch/Resume.antt =====
-- What a resumed plan leaves alone, and what it counts.
use rollout.Prelude.{
  ℕ, ◌+◌, ◌-◌, ltb, ◌≡◌, refl, Bool, true, false, List, [], ◌∷◌, Option, none, some, arith,
  Bool-cases, inl, inr, length, length-append, ◌∙◌, subst,
}
use rollout.Core.Ids.{Bytes, RunId, ContentId, content_str}
use rollout.Core.Errors.{ok, >>=-eq-ok, ok-injective}
use rollout.Core.Keys.{StorageKey, key_eq, key_eq→eq}
use rollout.Core.Externals.{Blake3}
use rollout.Store.{Storage, Codec, encode, decode, decode-encode}
use rollout.Batch.{
  SampleState, pending, running, done, failed, SampleRecord, sample_key, sample_id, try_repending,
}
use rollout.Batch.Swap.{Holds, Swapped, swap_sample-Swapped}
use rollout.Batch.Plan.{
  InputItem, ObjectStore, Site, BatchCoordinator, push, plan_new, plan_old, plan_row, repended,
  plan_item, scan_and_enqueue, is_done,
}

module _ ⦃st : Storage⦄ ⦃codec : Codec SampleRecord⦄ ⦃objects : ObjectStore⦄ where
  -- The row of a key holds a record that is done.
  pub record Finished (j : StorageKey) (c : st.Contents) : Type 0 where
    pub bytes : Bytes
    pub rec : SampleRecord
    pub stored : st.get_bytes j c ≡ some bytes
    pub decoded : decode bytes ≡ ok rec
    pub is_over : is_done rec.state ≡ true

  -- What a step may do: the finished rows stand, and the count is that of the entries it enqueued.
  pub record Kept (s : Site) (n : ℕ) (s' : Site) : Type 0 where
    pub rows :
        (j : StorageKey) → Finished j s.store → st.get_bytes j s'.store ≡ st.get_bytes j s.store
    pub count : length s'.queue ≡ length s.queue + n

  Kept-refl : (s : Site) → Kept s 0 s
  Kept-refl s = record { rows = λ j h. refl; count = omega arith }

  -- What the processes do that run beside a plan: they leave finished rows alone, as every swap of a
  -- worker does, and make no row of a sample, which only a plan of the run does.
  pub record Beside (run_id : RunId) (others : st.Contents → st.Contents) : Type 0 where
    pub finished :
        (j : StorageKey) (c : st.Contents)
        → Finished j c
        → st.get_bytes j (others c) ≡ st.get_bytes j c
    pub makes_none :
        (sid : ContentId) (c : st.Contents)
        → st.get_bytes (sample_key run_id sid) c ≡ none
        → st.get_bytes (sample_key run_id sid) (others c) ≡ none

  Kept-trans : {s s₁ s₂ : Site} {n m : ℕ} → Kept s n s₁ → Kept s₁ m s₂ → Kept s (n + m) s₂
  Kept-trans {s} {s₁} {s₂} h k = record {
    rows = λ j f. k.rows j (moved j f) ∙ h.rows j f;
    count = omega (arith, h.count, k.count);
  }
    where
      moved : (j : StorageKey) → Finished j s.store → Finished j s₁.store
      moved j f = record {
        bytes = f.bytes;
        rec = f.rec;
        stored = h.rows j f ∙ f.stored;
        decoded = f.decoded;
        is_over = f.is_over;
      }

  Kept-after :
      (s : Site) (c : st.Contents) (n : ℕ) (s' : Site)
      → ((j : StorageKey) → Finished j s.store → st.get_bytes j c ≡ st.get_bytes j s.store)
      → Kept (record s { store = c }) n s'
      → Kept s n s'
  Kept-after s c n s' h k = record {
    rows = λ j f.
        k.rows j (record {
          bytes = f.bytes;
          rec = f.rec;
          stored = h j f ∙ f.stored;
          decoded = f.decoded;
          is_over = f.is_over;
        })
        ∙ h j f;
    count = k.count;
  }

  -- To enqueue after a change of the store that spares the finished rows.
  push-Kept :
      (sid : ContentId) (s s' : Site)
      → ((j : StorageKey) → Finished j s.store → st.get_bytes j s'.store ≡ st.get_bytes j s.store)
      → s'.queue ≡ s.queue
      → Kept s (push sid s').0 (push sid s').1
  unfolding push
  push-Kept sid s s' h q = record {
    rows = h;
    count = rw q (length-append s.queue (content_str sid ∷ []));
  }

  -- The row of a sample that holds a record that is not done is not finished.
  Holds-not-Finished :
      (run_id : RunId) (rec : SampleRecord) (j : StorageKey) (c : st.Contents)
      → Holds run_id rec c
      → is_done rec.state ≡ false
      → Finished j c
      → key_eq (sample_key run_id rec.id) j ≡ false
  Holds-not-Finished run_id rec j c h live f =
      elim (Bool-cases (key_eq (sample_key run_id rec.id) j)) [
        | inr e ↦ e
        | inl e ↦
            let same : sample_key run_id rec.id ≡ j = key_eq→eq (sample_key run_id rec.id) j e in
            let bytes : h.bytes ≡ f.bytes = cc (h.stored, f.stored, same) in
            let recs : rec ≡ f.rec =
              ok-injective _ _ (cc (decode-encode rec h.encoded, f.decoded, bytes)) in
            absurd (cc (live, f.is_over, recs))
      ]

  repended-Kept :
      (run_id : RunId) (sid : ContentId) (rec : SampleRecord) (s : Site) (won : Bool)
      (c : st.Contents)
      → is_done rec.state ≡ false
      → Swapped run_id rec pending s.store won c
      → Kept s (repended sid s (won, c)).0 (repended sid s (won, c)).1
  repended-Kept run_id sid rec s false c live h = Kept-refl s
  repended-Kept run_id sid rec s true c live h =
      push-Kept sid s (record s { store = c })
        (λ j f. h.frame j (Holds-not-Finished run_id rec j s.store (h.before refl) live f)) refl

  ok-Kept : (s : Site) (r p : ℕ × Site) → ok r ≡ ok p → Kept s r.0 r.1 → Kept s p.0 p.1
  ok-Kept s r p e h = subst (λ (q : ℕ × Site). Kept s q.0 q.1) (ok-injective r p e) h

  plan_new-Kept :
      (this : BatchCoordinator) (now_ms : ℕ) (sid : ContentId) (item : InputItem) (s : Site)
      (p : ℕ × Site)
      → st.get_bytes (sample_key this.run_id sid) s.store ≡ none
      → plan_new this now_ms sid item s ≡ ok p
      → Kept s p.0 p.1
  unfolding plan_new
  plan_new-Kept this now_ms sid item s p fresh h =
      let (blob, e, h₁) = >>=-eq-ok (objects.put_blob item.prompt s.blobs) _ h in
      let (bytes, e', h₂) = >>=-eq-ok (encode _) _ h₁ in
      ok-Kept s _ p h₂ (
        push-Kept sid s
          (record s {
            store = st.put_bytes (sample_key this.run_id sid) bytes s.store;
            blobs = blob.1;
          })
          (λ j f. spared bytes j f) refl)
    where
      spared :
          (bytes : Bytes) (j : StorageKey)
          → Finished j s.store
          → st.get_bytes j (st.put_bytes (sample_key this.run_id sid) bytes s.store)
            ≡ st.get_bytes j s.store
      spared bytes j f = ground (
        arith,
        st.get-put j (sample_key this.run_id sid) bytes s.store,
        key_eq→eq (sample_key this.run_id sid) j,
        f.stored,
        fresh,
      )

  plan_old-Kept :
      (this : BatchCoordinator) (now_ms : ℕ) (sid : ContentId) (rec : SampleRecord)
      (state : SampleState) (s : Site) (p : ℕ × Site)
      → rec.state ≡ state
      → plan_old this now_ms sid rec state s ≡ ok p
      → Kept s p.0 p.1
  unfolding plan_old try_repending
  plan_old-Kept this now_ms sid rec (done blob t) s p e h = ok-Kept s (0, s) p h (Kept-refl s)
  plan_old-Kept this now_ms sid rec pending s p e h =
      ok-Kept s (push sid s) p h (push-Kept sid s s (λ j f. refl) refl)
  plan_old-Kept this now_ms sid rec (failed reason t) s p e h =
      ok-Kept s (push sid s) p h (push-Kept sid s s (λ j f. refl) refl)
  plan_old-Kept this now_ms sid rec (running w started) s p e h =
      elim (Bool-cases (ltb this.stale_after_ms (now_ms - started))) [
        | inr q ↦ ok-Kept s (0, s) p (rw (q, plan_old) at h) (Kept-refl s)
        | inl q ↦
            let (r, h₁, h₂) =
              >>=-eq-ok (try_repending rec this.run_id s.store) (λ r. ok (repended sid s r))
                (rw (q, plan_old) at h) in
            ok-Kept s (repended sid s r) p h₂ (
              repended-Kept this.run_id sid rec s r.0 r.1 (cc e)
                (swap_sample-Swapped this.run_id rec pending s.store h₁))
      ]

  plan_row-Kept :
      (this : BatchCoordinator) (now_ms : ℕ) (sid : ContentId) (item : InputItem) (o : Option Bytes)
      (s : Site) (p : ℕ × Site)
      → (o ≡ none → st.get_bytes (sample_key this.run_id sid) s.store ≡ none)
      → plan_row this now_ms sid item o s ≡ ok p
      → Kept s p.0 p.1
  unfolding plan_row
  plan_row-Kept this now_ms sid item none s p e h =
      plan_new-Kept this now_ms sid item s p (e refl) h
  plan_row-Kept this now_ms sid item (some bytes) s p e h =
      let (rec, e', h') = >>=-eq-ok (decode bytes) _ h in
      plan_old-Kept this now_ms sid rec rec.state s p refl h'

module _ ⦃st : Storage⦄ ⦃codec : Codec SampleRecord⦄ ⦃objects : ObjectStore⦄ ⦃blake3 : Blake3⦄ where
  plan_item-Kept :
      (this : BatchCoordinator) (now_ms : ℕ) (model : ContentId) (params : Bytes)
      (others : st.Contents → st.Contents) (item : InputItem) (s : Site) (p : ℕ × Site)
      → Beside this.run_id others
      → plan_item this now_ms model params others item s ≡ ok p
      → Kept s p.0 p.1
  unfolding plan_item
  plan_item-Kept this now_ms model params others item s p b h =
      let sid : ContentId = sample_id model item.prompt params item.input_idx in
      Kept-after s (others s.store) p.0 p.1 (λ j f. b.finished j s.store f)
        (plan_row-Kept this now_ms sid item (st.get_bytes (sample_key this.run_id sid) s.store)
          (record s { store = others s.store }) p (b.makes_none sid s.store) h)

  -- A plan that returns, on a first start or a restart, leaves the row of each sample that is done as it
  -- was, and its count is the number of entries it added to the queue. Other processes may write between
  -- its reads and its writes, as long as they leave finished rows alone and make no row of a sample: a
  -- plan overwrites a row that was made after it had looked.
  pub scan_and_enqueue-Kept :
      (this : BatchCoordinator) (now_ms : ℕ) (inputs : List InputItem)
      (model_content_id : ContentId) (params : Bytes) (others : ℕ → st.Contents → st.Contents)
      (i : ℕ) (s : Site) (n : ℕ) (s' : Site)
      → ((k : ℕ) → Beside this.run_id (others k))
      → scan_and_enqueue this now_ms inputs model_content_id params others i s ≡ ok (n, s')
      → Kept s n s'
  unfolding scan_and_enqueue
  scan_and_enqueue-Kept this now_ms [] model params others i s n s' b h =
      ok-Kept s (0, s) (n, s') h (Kept-refl s)
  scan_and_enqueue-Kept this now_ms (item ∷ inputs) model params others i s n s' b h =
      let (a, e₁, h₁) = >>=-eq-ok (plan_item this now_ms model params (others i) item s) _ h in
      let (r, e₂, h₂) =
        >>=-eq-ok (scan_and_enqueue this now_ms inputs model params others (i + 1) a.1) _ h₁ in
      ok-Kept s (a.0 + r.0, r.1) (n, s') h₂
        (Kept-trans (plan_item-Kept this now_ms model params (others i) item s a (b i) e₁)
          (scan_and_enqueue-Kept this now_ms inputs model params others (i + 1) a.1 r.0 r.1 b e₂))
