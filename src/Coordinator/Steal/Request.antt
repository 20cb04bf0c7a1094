-- ===== src/Coordinator/Steal/Request.antt =====
-- A whole steal request: how many items, whose, and where they end up.
use rollout.Prelude.{
  le_trans, ℕ, suc, keep-All, take-All, ◌==◌, ◌≡◌, ◌≢◌, ◌≤◌, refl, Bool, true, false, List, [], ◌∷◌,
  some, arith, Bool-cases, inl, inr, subst, All, length, take, length-take-le,
}
use rollout.Prelude.Sort.{sort_by-All}
use rollout.Core.Ids.{RunId, WorkerId, ContentId}
use rollout.Core.Errors.{Result, ok, >>=-eq-ok, ok-injective}
use rollout.Store.{Storage, Codec}
use rollout.Coordinator.WorkItem.{WorkState, pending, running, done, failed, WorkItemRecord}
use rollout.Coordinator.WorkItem.Swap.{Holds}
use rollout.Coordinator.Ledger.{runs_on}
use rollout.Coordinator.Steal.{
  batch_size, id_leb, victim_items, steal_one, push_if, steal_loop, steal_from,
}
use rollout.Coordinator.Steal.One.{Stolen, steal_one-Stolen, steal_one-keeps_thief}

module _ ⦃st : Storage⦄ ⦃codec : Codec WorkItemRecord⦄ where
  abbrev pub Env : Type 0
  Env = WorkItemRecord → st.Contents → st.Contents

  steal_loop-length :
      (run_id : RunId) (thief : WorkerId) (now_ms : ℕ) (env : Env) (recs : List WorkItemRecord)
      (c : st.Contents) (ids : List ContentId) (c' : st.Contents)
      → steal_loop run_id thief now_ms env recs c ≡ ok (ids, c')
      → length ids ≤ length recs
  unfolding steal_loop
  steal_loop-length run_id thief now_ms env [] c ids c' h =
      let e : ids ≡ [] = cc in rw e (omega arith)
  steal_loop-length run_id thief now_ms env (rec ∷ recs) c ids c' h =
      let ((won, c₁), e, h₁) = >>=-eq-ok (steal_one run_id thief now_ms rec (env rec c)) _ h in
      let ((rest, c₂), e₂, h₂) = >>=-eq-ok (steal_loop run_id thief now_ms env recs c₁) _ h₁ in
      pushed won rest c₂ (ok-injective _ _ h₂)
        (steal_loop-length run_id thief now_ms env recs c₁ rest c₂ e₂)
    where
      pushed :
          (won : Bool) (rest : List ContentId) (c₂ : st.Contents)
          → push_if won rec.id (rest, c₂) ≡ (ids, c')
          → length rest ≤ length recs
          → length ids ≤ suc (length recs)
      pushed true rest c₂ q l = let e : ids ≡ rec.id ∷ rest = cc in rw e (omega (arith, l))
      pushed false rest c₂ q l = let e : ids ≡ rest = cc in rw e (omega (arith, l))

  -- What the loop leaves for each id that it returns.
  abbrev pub Owned : RunId → WorkerId → ℕ → st.Contents → ContentId → Type 0
  Owned run_id thief now_ms c id = Holds run_id (record { id = id; state = running thief now_ms }) c

  -- Others leave alone what already runs on the thief since this request.
  abbrev pub Spares : RunId → WorkerId → ℕ → Env → Type 0
  Spares run_id thief now_ms env =
      (rec : WorkItemRecord) (c : st.Contents) (id : ContentId)
      → Holds run_id (record { id = id; state = running thief now_ms }) c
      → Holds run_id (record { id = id; state = running thief now_ms }) (env rec c)

  steal_loop-keeps :
      (run_id : RunId) (thief : WorkerId) (now_ms : ℕ) (env : Env) (recs : List WorkItemRecord)
      (c : st.Contents) (ids : List ContentId) (c' : st.Contents) (id : ContentId)
      → Spares run_id thief now_ms env
      → All (λ rec. runs_on thief rec.state ≡ false) recs
      → steal_loop run_id thief now_ms env recs c ≡ ok (ids, c')
      → Owned run_id thief now_ms c id
      → Owned run_id thief now_ms c' id
  unfolding steal_loop
  steal_loop-keeps run_id thief now_ms env [] c ids c' id sp ne h o =
      subst (λ x. Owned run_id thief now_ms x id) (cc) o
  steal_loop-keeps run_id thief now_ms env (rec ∷ recs) c ids c' id sp ne h o =
      let ((won, c₁), e, h₁) = >>=-eq-ok (steal_one run_id thief now_ms rec (env rec c)) _ h in
      let ((rest, c₂), e₂, h₂) = >>=-eq-ok (steal_loop run_id thief now_ms env recs c₁) _ h₁ in
      let o₁ =
        steal_one-keeps_thief run_id thief now_ms rec
          (record { id = id; state = running thief now_ms }) (env rec c) c₁ won refl ne.0
          (sp rec c id o) (steal_one-Stolen run_id thief now_ms rec (env rec c) e) in
      subst (λ x. Owned run_id thief now_ms x id) (same won rest c₂ (ok-injective _ _ h₂))
        (steal_loop-keeps run_id thief now_ms env recs c₁ rest c₂ id sp ne.1 e₂ o₁)
    where
      same :
          (won : Bool) (rest : List ContentId) (c₂ : st.Contents)
          → push_if won rec.id (rest, c₂) ≡ (ids, c')
          → c₂ ≡ c'
      same true rest c₂ q = cc
      same false rest c₂ q = cc

  -- Every id that the loop returns runs on the thief when the loop ends.
  steal_loop-Owned :
      (run_id : RunId) (thief : WorkerId) (now_ms : ℕ) (env : Env) (recs : List WorkItemRecord)
      (c : st.Contents) (ids : List ContentId) (c' : st.Contents)
      → Spares run_id thief now_ms env
      → All (λ rec. runs_on thief rec.state ≡ false) recs
      → steal_loop run_id thief now_ms env recs c ≡ ok (ids, c')
      → All (Owned run_id thief now_ms c') ids
  unfolding steal_loop
  steal_loop-Owned run_id thief now_ms env [] c ids c' sp ne h = let e : ids ≡ [] = cc in rw e tt
  steal_loop-Owned run_id thief now_ms env (rec ∷ recs) c ids c' sp ne h =
      let ((won, c₁), e, h₁) = >>=-eq-ok (steal_one run_id thief now_ms rec (env rec c)) _ h in
      let ((rest, c₂), e₂, h₂) = >>=-eq-ok (steal_loop run_id thief now_ms env recs c₁) _ h₁ in
      pushed won c₁ rest c₂ (steal_one-Stolen run_id thief now_ms rec (env rec c) e) e₂
        (steal_loop-Owned run_id thief now_ms env recs c₁ rest c₂ sp ne.1 e₂) (ok-injective _ _ h₂)
    where
      pushed :
          (won : Bool) (c₁ : st.Contents) (rest : List ContentId) (c₂ : st.Contents)
          → Stolen run_id thief now_ms rec (env rec c) won c₁
          → steal_loop run_id thief now_ms env recs c₁ ≡ ok (rest, c₂)
          → All (Owned run_id thief now_ms c₂) rest
          → push_if won rec.id (rest, c₂) ≡ (ids, c')
          → All (Owned run_id thief now_ms c') ids
      pushed true c₁ rest c₂ s l os q =
          let o =
            steal_loop-keeps run_id thief now_ms env recs c₁ rest c₂ rec.id sp ne.1 l
              (s.after refl) in
          let e : ids ≡ rec.id ∷ rest = cc in
          let f : c₂ ≡ c' = cc in
          rw e (subst (λ x. All (Owned run_id thief now_ms x) (rec.id ∷ rest)) f (o, os))
      pushed false c₁ rest c₂ s l os q =
          let e : ids ≡ rest = cc in
          let f : c₂ ≡ c' = cc in rw e (subst (λ x. All (Owned run_id thief now_ms x) rest) f os)

  -- The items chosen all run on the victim.
  victim_items-All :
      (run_id : RunId) (victim : WorkerId) (c : st.Contents)
      → All (λ rec. runs_on victim rec.state ≡ true) (victim_items run_id victim c)
  unfolding victim_items
  victim_items-All run_id victim c =
      sort_by-All id_leb (λ rec. runs_on victim rec.state ≡ true) _ (keep-All _ _)

  not_thief :
      (victim thief : WorkerId)
      → victim ≢ thief
      → (recs : List WorkItemRecord) → All (λ rec. runs_on victim rec.state ≡ true) recs
      → All (λ rec. runs_on thief rec.state ≡ false) recs
  not_thief victim thief ne [] h = tt
  not_thief victim thief ne (rec ∷ recs) h = (one rec.state h.0, not_thief victim thief ne recs h.1)
    where
      one : (s : WorkState) → runs_on victim s ≡ true → runs_on thief s ≡ false
      one (running w t) q = ground arith
      one pending q = cc
      one (done r) q = cc
      one (failed r) q = cc

  -- A steal that starts from the busiest other worker returns at most half of its backlog, rounded
  -- up, and at most 32 ids, each of which runs on the thief at the end.
  pub steal_from-result :
      (run_id : RunId) (thief : WorkerId) (now_ms : ℕ) (env : Env) (c : st.Contents)
      (victim : WorkerId) (n : ℕ) (ids : List ContentId) (c' : st.Contents)
      → Spares run_id thief now_ms env
      → victim ≢ thief
      → steal_from run_id thief now_ms env c (some (victim, n)) ≡ ok (ids, c')
      → (length ids ≤ batch_size n) × All (Owned run_id thief now_ms c') ids
  unfolding steal_from
  steal_from-result run_id thief now_ms env c victim n ids c' sp ne h =
      elim (Bool-cases (batch_size n == 0)) [
        | inl none_left ↦
            let end : ◌≡◌ {A = Result (List ContentId × st.Contents)} (ok ([], c)) (ok (ids, c')) =
              rw none_left at h in
            let e : ids ≡ [] = cc in rw e (omega arith, tt)
        | inr some_left ↦
            let run = rw some_left at h in
            let chosen : List WorkItemRecord = take (batch_size n) (victim_items run_id victim c) in
            (
              le_trans (steal_loop-length run_id thief now_ms env chosen c ids c' run)
                  (length-take-le (batch_size n) (victim_items run_id victim c)),
              steal_loop-Owned run_id thief now_ms env chosen c ids c' sp
                  (not_thief victim thief ne chosen (
                    take-All _ (batch_size n) (victim_items run_id victim c)
                      (victim_items-All run_id victim c)))
                  run,
            )
      ]
