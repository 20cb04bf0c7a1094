-- ===== src/Coordinator/Steal/One.antt =====
-- One item of a steal.
use rollout.Prelude.{
  ℕ, ◌≡◌, refl, Bool, true, false, Bool-cases, inl, inr, subst, sym, ◌∙◌, ap, ==_iff,
}
use rollout.Core.Ids.{RunId, WorkerId}
use rollout.Core.Errors.{ok, >>=-eq-ok, ok-injective}
use rollout.Core.Keys.{StorageKey, key_eq}
use rollout.Store.{Storage, Codec}
use rollout.Coordinator.WorkItem.{
  pending, running, WorkItemRecord, work_key, is_running, try_claim, try_repending,
}
use rollout.Coordinator.WorkItem.Swap.{Holds, Holds-unique, with_state}
use rollout.Coordinator.WorkItem.Race.{claim, repend, apply, apply-won}
use rollout.Coordinator.WorkItem.Life.{work_key-injective}
use rollout.Coordinator.Ledger.{runs_on}
use rollout.Coordinator.Steal.{reclaim, steal_one, finish}

module _ ⦃st : Storage⦄ ⦃codec : Codec WorkItemRecord⦄ where
  abbrev pub thief_item : WorkItemRecord → WorkerId → ℕ → WorkItemRecord
  thief_item rec thief now_ms = with_state rec (running thief now_ms)

  -- What one item's transaction did.
  pub record Stolen (run_id : RunId) (thief : WorkerId) (now_ms : ℕ) (rec : WorkItemRecord)
      (c : st.Contents) (won : Bool) (c' : st.Contents) : Type 0 where
    pub running_before : won ≡ true → is_running rec.state ≡ true
    pub before : won ≡ true → Holds run_id rec c
    pub after : won ≡ true → Holds run_id (thief_item rec thief now_ms) c'
    pub unchanged : won ≡ false → c' ≡ c
    pub frame :
        (j : StorageKey)
        → key_eq (work_key run_id rec.id) j ≡ false
        → st.get_bytes j c' ≡ st.get_bytes j c

  kept :
      (run_id : RunId) (thief : WorkerId) (now_ms : ℕ) (rec : WorkItemRecord) (c c' : st.Contents)
      → c' ≡ c
      → Stolen run_id thief now_ms rec c false c'
  kept run_id thief now_ms rec c c' e = record {
    running_before = λ w. absurd (cc);
    before = λ w. absurd (cc);
    after = λ w. absurd (cc);
    unchanged = λ w. e;
    frame = λ j ne. cc;
  }

  -- The claim after a repending that won: it commits, or nothing has happened.
  claimed-Stolen :
      (run_id : RunId) (thief : WorkerId) (now_ms : ℕ) (rec : WorkItemRecord)
      (c c₁ c₂ c' : st.Contents) (r won : Bool)
      → apply run_id rec repend c ≡ ok (true, c₁)
      → apply run_id (with_state rec pending) (claim thief now_ms) c₁ ≡ ok (r, c₂)
      → finish c (r, c₂) ≡ (won, c')
      → Stolen run_id thief now_ms rec c won c'
  claimed-Stolen run_id thief now_ms rec c c₁ c₂ c' false won h k e =
      subst (λ w. Stolen run_id thief now_ms rec c w c') (cc)
        (kept run_id thief now_ms rec c c' (cc))
  claimed-Stolen run_id thief now_ms rec c c₁ c₂ c' true won h k e =
      let (g, first) = apply-won run_id rec repend c h in
      let (g', second) = apply-won run_id (with_state rec pending) (claim thief now_ms) c₁ k in
      let same : c₂ ≡ c' = cc in
      record {
        running_before = λ w. g;
        before = λ w. first.before refl;
        after = λ w. subst (Holds run_id (thief_item rec thief now_ms)) same (second.after refl);
        unchanged = λ w. absurd (cc);
        frame = λ j ne. ap (st.get_bytes j) (sym same) ∙ second.frame j ne ∙ first.frame j ne;
      }

  reclaim-Stolen :
      (run_id : RunId) (thief : WorkerId) (now_ms : ℕ) (rec : WorkItemRecord)
      (c c₁ c' : st.Contents) (r won : Bool)
      → try_repending run_id rec c ≡ ok (r, c₁)
      → reclaim run_id thief now_ms rec c (r, c₁) ≡ ok (won, c')
      → Stolen run_id thief now_ms rec c won c'
  unfolding reclaim apply
  reclaim-Stolen run_id thief now_ms rec c c₁ c' false won h k =
      let end : ◌≡◌ {A = Bool × st.Contents} (false, c) (won, c') = ok-injective _ _ k in
      subst (λ w. Stolen run_id thief now_ms rec c w c') (cc)
        (kept run_id thief now_ms rec c c' (cc))
  reclaim-Stolen run_id thief now_ms rec c c₁ c' true won h k =
      let ((r, c₂), e, k₁) =
        >>=-eq-ok (try_claim run_id (with_state rec pending) thief now_ms c₁) _ k in
      claimed-Stolen run_id thief now_ms rec c c₁ c₂ c' r won h e (ok-injective _ _ k₁)

  pub steal_one-Stolen :
      (run_id : RunId) (thief : WorkerId) (now_ms : ℕ) (rec : WorkItemRecord) (c : st.Contents)
      {won : Bool} {c' : st.Contents}
      → steal_one run_id thief now_ms rec c ≡ ok (won, c')
      → Stolen run_id thief now_ms rec c won c'
  unfolding steal_one
  steal_one-Stolen run_id thief now_ms rec c {won} {c'} h =
      let ((r, c₁), e, h₁) = >>=-eq-ok (try_repending run_id rec c) _ h in
      reclaim-Stolen run_id thief now_ms rec c c₁ c' r won e h₁

  -- A steal moves the thief's own items no further.
  pub steal_one-keeps_thief :
      (run_id : RunId) (thief : WorkerId) (now_ms : ℕ) (rec item : WorkItemRecord)
      (c c' : st.Contents) (won : Bool)
      → item.state ≡ running thief now_ms
      → runs_on thief rec.state ≡ false
      → Holds run_id item c
      → Stolen run_id thief now_ms rec c won c'
      → Holds run_id item c'
  steal_one-keeps_thief run_id thief now_ms rec item c c' false owned ne h s =
      subst (Holds run_id item) (sym (s.unchanged refl)) h
  steal_one-keeps_thief run_id thief now_ms rec item c c' true owned ne h s =
      elim (Bool-cases (key_eq (work_key run_id rec.id) (work_key run_id item.id))) [
        | inl same ↦
            let recs : rec ≡ item =
              Holds-unique {x = rec} {y = item} (work_key-injective run_id rec.id item.id same)
                (s.before refl) h in
            let theirs : runs_on thief rec.state ≡ true =
              subst (λ (x : WorkItemRecord). runs_on thief x.state ≡ true) (sym recs)
                (rw (owned, runs_on) ((==_iff thief thief).1 refl)) in
            absurd (cc (theirs, ne))
        | inr other ↦ record {
          bytes = h.bytes;
          encoded = h.encoded;
          stored = s.frame (work_key run_id item.id) other ∙ h.stored;
        }
      ]
