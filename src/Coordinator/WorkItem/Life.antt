-- ===== src/Coordinator/WorkItem/Life.antt =====
-- The life of one work item over any sequence of calls, by any number of callers.
use rollout.Prelude.{
  ℕ, ◌≡◌, refl, Bool, true, false, List, [], ◌∷◌, Bool-cases, inl, inr, subst, sym, ◌∙◌,
}
use rollout.Core.Ids.{RunId, WorkerId, ContentId, content_str, content_str-injective}
use rollout.Core.Errors.{Result, ok, ◌>>=◌, >>=-eq-ok, ok-injective}
use rollout.Core.Keys.{key_eq, key_eq→eq}
use rollout.Store.{Storage, Codec}
use rollout.Coordinator.WorkItem.{
  WorkState, pending, running, done, failed, WorkItemRecord, work_key,
}
use rollout.Coordinator.WorkItem.Swap.{Holds, Holds-unique, with_state}
use rollout.Coordinator.WorkItem.Race.{
  Op, claim, complete, repend, target, guard, apply, apply-won, apply-lost,
}

-- The steps of the state machine.
pub data Step : WorkState → WorkState → Type 0 where
  claimed : (w : WorkerId) (now : ℕ) → Step pending (running w now)
  completed : (w : WorkerId) (now : ℕ) (r : ContentId) → Step (running w now) (done r)
  repended : (w : WorkerId) (now : ℕ) → Step (running w now) pending

-- Zero or more steps.
pub data Steps : WorkState → WorkState → Type 0 where
  here : {s : WorkState} → Steps s s
  next : {s t u : WorkState} → Steps s t → Step t u → Steps s u

abbrev pub is_terminal : WorkState → Bool
is_terminal (done _) = true
is_terminal (failed _) = true
is_terminal _ = false

pub guard-Step : (o : Op) (s : WorkState) → guard o s ≡ true → Step s (target o)
guard-Step (claim w now) pending g = claimed w now
guard-Step (claim w now) (running _ _) g = cc
guard-Step (claim w now) (done _) g = cc
guard-Step (claim w now) (failed _) g = cc
guard-Step (complete r) (running w now) g = completed w now r
guard-Step (complete r) pending g = cc
guard-Step (complete r) (done _) g = cc
guard-Step (complete r) (failed _) g = cc
guard-Step repend (running w now) g = repended w now
guard-Step repend pending g = cc
guard-Step repend (done _) g = cc
guard-Step repend (failed _) g = cc

-- No step leaves a terminal state.
pub Step-terminal : {s t : WorkState} → is_terminal s ≡ true → ¬ Step s t
Step-terminal h (claimed w now) = cc
Step-terminal h (completed w now r) = cc
Step-terminal h (repended w now) = cc

pub Steps-terminal : {s t : WorkState} → is_terminal s ≡ true → Steps s t → t ≡ s
Steps-terminal h here = refl
Steps-terminal {s} {t} h (next r st) =
    absurd (Step-terminal (subst (λ x. is_terminal x ≡ true) (sym (Steps-terminal h r)) h) st)

-- Keys of two items of a run differ where their ids do.
pub work_key-injective :
    (run_id : RunId) (a b : ContentId)
    → key_eq (work_key run_id a) (work_key run_id b) ≡ true
    → a ≡ b
work_key-injective run_id a b h =
    content_str-injective a b (head (key_eq→eq (work_key run_id a) (work_key run_id b) h))
  where
    head : work_key run_id a ≡ work_key run_id b → content_str a ≡ content_str b
    head e = cc

module _ ⦃st : Storage⦄ ⦃codec : Codec WorkItemRecord⦄ where
  -- Calls in the order in which they take effect, each on the record that its caller had read.
  unfoldable pub apply_all : RunId → List (WorkItemRecord × Op) → st.Contents → Result st.Contents
  apply_all run_id [] c = ok c
  apply_all run_id ((rec, o) ∷ calls) c = apply run_id rec o c >>= λ r. apply_all run_id calls r.1

  -- The row of an item after one call, on any record, is one step away at most.
  pub apply-Holds :
      (run_id : RunId) (rec : WorkItemRecord) (o : Op) (item : WorkItemRecord) (c c' : st.Contents)
      (won : Bool)
      → Holds run_id item c
      → apply run_id rec o c ≡ ok (won, c')
      → (s : WorkState) × Holds run_id (with_state item s) c' × Steps item.state s
  apply-Holds run_id rec o item c c' false h e =
      (item.state, subst (Holds run_id item) (sym (apply-lost run_id rec o c e)) h, here)
  apply-Holds run_id rec o item c c' true h e =
      let (g, sw) = apply-won run_id rec o c e in
      elim (Bool-cases (key_eq (work_key run_id rec.id) (work_key run_id item.id))) [
        | inl same ↦
            let ids : rec.id ≡ item.id = work_key-injective run_id rec.id item.id same in
            let recs : rec ≡ item = Holds-unique {x = rec} {y = item} ids (sw.before refl) h in
            (
              target o,
              subst (λ (x : WorkItemRecord). Holds run_id (with_state x (target o)) c') recs
                  (sw.after refl),
              subst (λ (x : WorkItemRecord). Steps x.state (target o)) recs
                  (next here (guard-Step o rec.state g)),
            )
        | inr other ↦ (
          item.state,
          record {
            bytes = h.bytes;
            encoded = h.encoded;
            stored = sw.frame (work_key run_id item.id) other ∙ h.stored;
          },
          here,
        )
      ]

  Steps-trans : {s t u : WorkState} → Steps s t → Steps t u → Steps s u
  Steps-trans p here = p
  Steps-trans p (next q st) = next (Steps-trans p q) st

  pub apply_all-Steps :
      (run_id : RunId) (calls : List (WorkItemRecord × Op)) (item : WorkItemRecord)
      (c c' : st.Contents)
      → Holds run_id item c
      → apply_all run_id calls c ≡ ok c'
      → (s : WorkState) × Holds run_id (with_state item s) c' × Steps item.state s
  unfolding apply_all
  apply_all-Steps run_id [] item c c' h e =
      (item.state, subst (Holds run_id item) (ok-injective c c' e) h, here)
  apply_all-Steps run_id ((rec, o) ∷ calls) item c c' h e =
      let ((won, c₁), e₁, e₂) = >>=-eq-ok (apply run_id rec o c) _ e in
      let (s, h₁, p) = apply-Holds run_id rec o item c c₁ won h e₁ in
      let (t, h₂, q) = apply_all-Steps run_id calls (with_state item s) c₁ c' h₁ e₂ in
      (t, h₂, Steps-trans p q)

  -- Once the row of an item is terminal it holds the same record after any sequence of the three calls
  -- `try_claim`, `try_complete` and `try_repending`, with any records. Nothing is said of writes that are
  -- none of these calls: a dispatch puts a pending row in any case.
  pub terminal_forever :
      (run_id : RunId) (calls : List (WorkItemRecord × Op)) (item : WorkItemRecord)
      (c c' : st.Contents)
      → is_terminal item.state ≡ true
      → Holds run_id item c
      → apply_all run_id calls c ≡ ok c'
      → Holds run_id item c'
  terminal_forever run_id calls item c c' t h e =
      let (s, h', p) = apply_all-Steps run_id calls item c c' h e in
      subst (λ x. Holds run_id (with_state item x) c') (Steps-terminal t p) h'
