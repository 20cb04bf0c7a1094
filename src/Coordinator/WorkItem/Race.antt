-- ===== src/Coordinator/WorkItem/Race.antt =====
-- Two operations that start from the same record of a work item: at most one of them takes effect.
use rollout.Prelude.{
  ℕ, ◌≡◌, ◌≢◌, refl, Bool, true, false, arith, if◌then◌else◌, Bool-cases, inl, inr,
}
use rollout.Core.Ids.{RunId, WorkerId, ContentId}
use rollout.Core.Errors.{Result, ok}
use rollout.Store.{Storage, Codec}
use rollout.Coordinator.WorkItem.{
  WorkState, pending, running, done, WorkItemRecord, is_pending, is_running, swap_state, try_claim,
  try_complete, try_repending,
}
use rollout.Coordinator.WorkItem.Swap.{Holds, Holds-unique, Swapped, swap_state-Swapped, with_state}

-- The calls that coordinators and workers make on a record that they have read.
pub data Op : Type 0 where
  claim : (worker_id : WorkerId) (now_ms : ℕ) → Op
  complete : (result_id : ContentId) → Op
  repend : Op

-- The state that a call asks for, and whether the record's state lets it try.
abbrev pub target : Op → WorkState
target (claim w now) = running w now
target (complete r) = done r
target repend = pending

abbrev pub guard : Op → WorkState → Bool
guard (claim w now) s = is_pending s
guard (complete r) s = is_running s
guard repend s = is_running s

pub target-ne : (o : Op) (s : WorkState) → guard o s ≡ true → target o ≢ s
target-ne (claim w now) s g e = ground arith
target-ne (complete r) s g e = ground arith
target-ne repend s g e = ground arith

module _ ⦃st : Storage⦄ ⦃codec : Codec WorkItemRecord⦄ where
  unfoldable pub apply : RunId → WorkItemRecord → Op → st.Contents → Result (Bool × st.Contents)
  apply run_id rec (claim w now) c = try_claim run_id rec w now c
  apply run_id rec (complete r) c = try_complete run_id rec r c
  apply run_id rec repend c = try_repending run_id rec c

  pub apply_lem :
      (run_id : RunId) (rec : WorkItemRecord) (o : Op) (c : st.Contents)
      → apply run_id rec o c
        ≡ (if guard o rec.state then swap_state run_id rec (target o) c else ok (false, c))
  unfolding apply try_claim try_complete try_repending
  apply_lem run_id rec (claim w now) c = refl
  apply_lem run_id rec (complete r) c = refl
  apply_lem run_id rec repend c = refl

  -- A call that won found its record in the row, and was allowed to try.
  pub apply-won :
      (run_id : RunId) (rec : WorkItemRecord) (o : Op) (c : st.Contents) {c' : st.Contents}
      → apply run_id rec o c ≡ ok (true, c')
      → (guard o rec.state ≡ true) × Swapped run_id rec (target o) c true c'
  apply-won run_id rec o c h = elim (Bool-cases (guard o rec.state)) [
    | inl g ↦
        (g, swap_state-Swapped run_id rec (target o) c (rw (apply_lem run_id rec o c, g) at h))
    | inr g ↦ absurd (cc (apply_lem run_id rec o c, h, not_tried g))
  ]
    where
      not_tried :
          guard o rec.state ≡ false
          → (if guard o rec.state then swap_state run_id rec (target o) c else ok (false, c))
            ≡ ok (false, c)
      not_tried g = rw g

  -- Whatever its outcome, a call that returned left the other rows alone, and one that lost left
  -- the whole store alone.
  pub apply-lost :
      (run_id : RunId) (rec : WorkItemRecord) (o : Op) (c : st.Contents) {c' : st.Contents}
      → apply run_id rec o c ≡ ok (false, c')
      → c' ≡ c
  apply-lost run_id rec o c {c'} h = elim (Bool-cases (guard o rec.state)) [
    | inl g ↦
        (swap_state-Swapped run_id rec (target o) c
            (rw (apply_lem run_id rec o c, g) at h)).unchanged
          refl
    | inr g ↦
        let e : ◌≡◌ {A = Result (Bool × st.Contents)} (ok (false, c)) (ok (false, c')) =
          rw (apply_lem run_id rec o c, g) at h in
        cc
  ]

  -- Of two calls on the same record, the one that comes second loses once the first has won. So a
  -- claim is granted once, and of an acknowledgement and a steal exactly one takes effect.
  pub second_call_loses :
      (run_id : RunId) (rec : WorkItemRecord) (o o' : Op) (c : st.Contents) {c₁ c₂ : st.Contents}
      {won : Bool}
      → apply run_id rec o c ≡ ok (true, c₁)
      → apply run_id rec o' c₁ ≡ ok (won, c₂)
      → (won ≡ false) × (c₂ ≡ c₁)
  second_call_loses run_id rec o o' c {c₁} {won = true} h h' =
      let (g, first) = apply-won run_id rec o c h in
      let (g', second) = apply-won run_id rec o' c₁ h' in
      absurd (target-ne o rec.state g (same (first.after refl) (second.before refl)))
    where
      same :
          {c : st.Contents}
          → Holds run_id (with_state rec (target o)) c
          → Holds run_id rec c
          → target o ≡ rec.state
      same a b = cc (Holds-unique {x = with_state rec (target o)} {y = rec} refl a b)
  second_call_loses run_id rec o o' c {c₁} {won = false} h h' =
      (refl, apply-lost run_id rec o' c₁ h')
