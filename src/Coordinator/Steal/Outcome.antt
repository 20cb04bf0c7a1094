-- ===== src/Coordinator/Steal/Outcome.antt =====
-- What a steal request promises to the worker that asked.
use rollout.Prelude.{
  ℕ, ◌+◌, ◌*◌, ◌≡◌, ◌≢◌, ◌≤◌, ◌<◌, refl, List, [], Option, none, some, arith, Bool-cases, inl, inr,
  ◌⊎◌, All, length, ltb, lt→ltb,
}
use rollout.Core.Ids.{RunId, WorkerId, ContentId}
use rollout.Core.Errors.{Result, ok, ◌>>=◌, >>=-eq-ok}
use rollout.Store.{Storage, Codec}
use rollout.Coordinator.WorkItem.{WorkItemRecord, work_prefix}
use rollout.Coordinator.Ledger.{count_running, decode_all, backlog}
use rollout.Coordinator.Ledger.Busiest.{IsBusiest, busiest-IsBusiest}
use rollout.Coordinator.Steal.{max_steal_batch, steal_from, handle_steal_request}
use rollout.Coordinator.Steal.Request.{Env, Spares, Owned, steal_from-result}

module _ ⦃st : Storage⦄ ⦃codec : Codec WorkItemRecord⦄ where
  -- A worker that still runs an item is given nothing, and nothing is written.
  pub busy_thief_steals_nothing :
      (run_id : RunId) (thief : WorkerId) (now_ms : ℕ) (env : Env) (held counted c : st.Contents)
      (recs : List WorkItemRecord)
      → decode_all (st.scan_bytes (work_prefix run_id) held) ≡ ok recs
      → 0 < count_running thief recs
      → handle_steal_request run_id thief now_ms env held counted c ≡ ok ([], c)
  unfolding handle_steal_request backlog
  busy_thief_steals_nothing run_id thief now_ms env held counted c recs h busy =
      rw (h, ◌>>=◌, lt→ltb _ _ busy)

  from_busiest :
      (run_id : RunId) (thief : WorkerId) (now_ms : ℕ) (env : Env) (c : st.Contents)
      (recs : List WorkItemRecord) (r : Option (WorkerId × ℕ)) (ids : List ContentId)
      (c' : st.Contents)
      → Spares run_id thief now_ms env
      → IsBusiest thief recs r
      → steal_from run_id thief now_ms env c r ≡ ok (ids, c')
      → All (Owned run_id thief now_ms c') ids
        × (length ids ≤ max_steal_batch)
        × ((ids ≡ [])
            ⊎ ((victim : WorkerId) × (victim ≢ thief)
                × (2 * length ids ≤ count_running victim recs + 1)
                × ((v : WorkerId) → v ≢ thief → count_running v recs ≤ count_running victim recs)))
  unfolding steal_from
  from_busiest run_id thief now_ms env c recs none ids c' sp b h =
      let e : ids ≡ [] = cc in rw e (tt, omega arith, inl refl)
  from_busiest run_id thief now_ms env c recs (some (victim, n)) ids c' sp (ne, count, pos, most)
        h =
      let (len, owned) = steal_from-result run_id thief now_ms env c victim n ids c' sp ne h in
      (
        owned,
        omega (arith, len),
        inr (victim, ne, omega (arith, len, count), λ v q. rw (← count) (most v q)),
      )

  -- A steal request that returns ids, with others that leave the thief's new items alone: every id
  -- runs on the thief at the end; they are at most 32; and they are at most half, rounded up, of the
  -- backlog of a victim, another worker with the largest backlog of all others, as it was when the request counted them.
  pub steal_is_fair :
      (run_id : RunId) (thief : WorkerId) (now_ms : ℕ) (env : Env) (held counted c : st.Contents)
      (recs : List WorkItemRecord) (ids : List ContentId) (c' : st.Contents)
      → decode_all (st.scan_bytes (work_prefix run_id) counted) ≡ ok recs
      → Spares run_id thief now_ms env
      → handle_steal_request run_id thief now_ms env held counted c ≡ ok (ids, c')
      → All (Owned run_id thief now_ms c') ids
        × (length ids ≤ max_steal_batch)
        × ((ids ≡ [])
            ⊎ ((victim : WorkerId) × (victim ≢ thief)
                × (2 * length ids ≤ count_running victim recs + 1)
                × ((v : WorkerId) → v ≢ thief → count_running v recs ≤ count_running victim recs)))
  unfolding handle_steal_request
  steal_is_fair run_id thief now_ms env held counted c recs ids c' dec sp h =
      let (n, e, h₁) = >>=-eq-ok (backlog run_id thief held) _ h in
      let (r, found, best) = busiest-IsBusiest run_id thief counted recs dec in
      elim (Bool-cases (ltb 0 n)) [
        | inl busy ↦
            let end : ◌≡◌ {A = Result (List ContentId × st.Contents)} (ok ([], c)) (ok (ids, c')) =
              rw busy at h₁ in
            let nothing : ids ≡ [] = cc in rw nothing (tt, omega arith, inl refl)
        | inr idle ↦
            from_busiest run_id thief now_ms env c recs r ids c' sp best (rw (idle, found) at h₁)
      ]
