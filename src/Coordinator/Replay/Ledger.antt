-- ===== src/Coordinator/Replay/Ledger.antt =====
-- What a boot rebuilds, and that it leaves the work ledger alone.
use rollout.Prelude.{
  ℕ, ◌+◌, ◌≡◌, refl, false, List, [], ◌∷◌, ◌++◌, Option, some, none, if◌then◌else◌, arith, bytes_eq,
  bytes_eq→eq, bytes_eq_refl, ◌∙◌, subst, sym, ap,
}
use mathlib.Core.List.{append_assoc, append-nil}
use rollout.Core.Ids.{RunId, WorkerId, ContentId}
use rollout.Core.Errors.{ok, >>=-eq-ok, ok-injective}
use rollout.Core.Keys.{StorageKey, key_eq}
use rollout.Store.{Storage, Codec}
use rollout.Coordinator.WorkItem.{
  WorkState, running, done, failed, WorkItemRecord, work_key, work_prefix,
}
use rollout.Coordinator.WorkItem.Life.{is_terminal}
use rollout.Coordinator.Lease.{LeaseRecord, try_acquire, lease_key, epoch_key}
use rollout.Coordinator.Lease.Exclusion.{Outcome, first, steal, refused, try_acquire-Outcome}
use rollout.Coordinator.Steal.{decodable}
use rollout.Coordinator.Replay.{
  InFlight, put_entry, lookup_entry, ReplayState, replay_one, replay_records, boot_state,
  replay_held, replay_and_serve,
}

-- The specification: what the records say of each item, in ledger order.
abbrev pub add_pending : WorkState → ContentId → List ContentId → List ContentId
add_pending WorkState.pending id ids = id ∷ ids
add_pending _ id ids = ids

abbrev pub pending_ids : List WorkItemRecord → List ContentId
pending_ids [] = []
pending_ids (rec ∷ recs) = add_pending rec.state rec.id (pending_ids recs)

abbrev pub count_terminal : List WorkItemRecord → ℕ
count_terminal [] = 0
count_terminal (rec ∷ recs) = (if is_terminal rec.state then 1 else 0) + count_terminal recs

abbrev pub owner_or : Option WorkerId → ContentId → WorkState → ContentId → Option WorkerId
owner_or found id (running w t) j = if bytes_eq j id then some w else found
owner_or found id _ j = found

-- The worker of the last running record of an item.
abbrev pub owner_from : Option WorkerId → ContentId → List WorkItemRecord → Option WorkerId
owner_from found id [] = found
owner_from found id (rec ∷ recs) = owner_from (owner_or found id rec.state rec.id) id recs

lookup-put_entry :
    (j id : ContentId) (w : WorkerId) (m : InFlight)
    → lookup_entry j (put_entry id w m) ≡ (if bytes_eq id j then some w else lookup_entry j m)
lookup-put_entry j id w [] = refl
lookup-put_entry j id w ((i, v) ∷ m) = ground (
  arith,
  bytes_eq→eq i id,
  bytes_eq→eq id j,
  bytes_eq→eq i j,
  bytes_eq_refl j,
  lookup-put_entry j id w m,
)

-- The state after the loop is the specification, added to the state before it.
record Rebuilt (recs : List WorkItemRecord) (s s' : ReplayState) : Type 0 where
  epoch : s'.epoch ≡ s.epoch
  pending : s'.pending ≡ s.pending ++ pending_ids recs
  terminal : s'.terminal ≡ s.terminal + count_terminal recs
  in_flight :
      (id : ContentId)
      → lookup_entry id s'.in_flight ≡ owner_from (lookup_entry id s.in_flight) id recs

Rebuilt-step :
    (t : WorkState) (id : ContentId) (recs : List WorkItemRecord) (s s' : ReplayState)
    → Rebuilt recs (replay_one id t s) s'
    → Rebuilt (record { id = id; state = t } ∷ recs) s s'
Rebuilt-step WorkState.pending id recs s s' r = record {
  epoch = r.epoch;
  pending = r.pending ∙ append_assoc s.pending (id ∷ []) (pending_ids recs);
  terminal = omega (arith, r.terminal);
  in_flight = r.in_flight;
}
Rebuilt-step (running w t) id recs s s' r = record {
  epoch = r.epoch;
  pending = r.pending;
  terminal = omega (arith, r.terminal);
  in_flight = λ j. rw (← lookup-put_entry j id w s.in_flight) (r.in_flight j);
}
Rebuilt-step (done x) id recs s s' r = record {
  epoch = r.epoch;
  pending = r.pending;
  terminal = omega (arith, r.terminal);
  in_flight = r.in_flight;
}
Rebuilt-step (failed x) id recs s s' r = record {
  epoch = r.epoch;
  pending = r.pending;
  terminal = omega (arith, r.terminal);
  in_flight = r.in_flight;
}

replay_records-Rebuilt :
    (recs : List WorkItemRecord) (s : ReplayState) → Rebuilt recs s (replay_records recs s)
unfolding replay_records
replay_records-Rebuilt [] s = record {
  epoch = refl;
  pending = simp (append-nil);
  terminal = omega arith;
  in_flight = λ id. refl;
}
replay_records-Rebuilt (rec ∷ recs) s =
    Rebuilt-step rec.state rec.id recs s _
      (replay_records-Rebuilt recs (replay_one rec.id rec.state s))

module _ ⦃st : Storage⦄ ⦃items : Codec WorkItemRecord⦄ ⦃leases : Codec LeaseRecord⦄
    ⦃epochs : Codec ℕ⦄ where
  -- A boot that won the lease adopts its epoch, holds the pending items in ledger order, the owner of
  -- each running item and the number of terminal ones: a running item is never pending again, and a
  -- finished one neither.
  pub replay_rebuilds :
      (run_id : RunId) (me : WorkerId) (ttl_ms now : ℕ) (env : st.Contents → st.Contents)
      (read c : st.Contents) (s : ReplayState) (c' : st.Contents)
      → replay_and_serve run_id me ttl_ms now env read c ≡ ok (some s, c')
      → (recs : List WorkItemRecord) × (recs ≡ decodable (st.scan_bytes (work_prefix run_id) c'))
        × (held : LeaseRecord) × (c₁ : st.Contents) × (try_acquire run_id me ttl_ms now read c
            ≡ ok (some held, c₁))
        × (s.epoch ≡ held.epoch)
        × (s.pending ≡ pending_ids recs)
        × (s.terminal ≡ count_terminal recs)
        × ((id : ContentId) → lookup_entry id s.in_flight ≡ owner_from none id recs)
  unfolding replay_and_serve
  replay_rebuilds run_id me ttl_ms now env read c s c' h =
      let ((r, c₁), e, h₁) = >>=-eq-ok (try_acquire run_id me ttl_ms now read c) _ h in
      by_grant r c₁ e (ok-injective _ _ h₁)
    where
      by_grant :
          (r : Option LeaseRecord) (c₁ : st.Contents)
          → try_acquire run_id me ttl_ms now read c ≡ ok (r, c₁)
          → replay_held run_id env (r, c₁) ≡ (some s, c')
          → (recs : List WorkItemRecord) × (recs
              ≡ decodable (st.scan_bytes (work_prefix run_id) c'))
            × (held : LeaseRecord) × (c₁ : st.Contents) × (try_acquire run_id me ttl_ms now read c
                ≡ ok (some held, c₁))
            × (s.epoch ≡ held.epoch)
            × (s.pending ≡ pending_ids recs)
            × (s.terminal ≡ count_terminal recs)
            × ((id : ContentId) → lookup_entry id s.in_flight ≡ owner_from none id recs)
      by_grant none c₁ e q = absurd (cc)
      by_grant (some held) c₁ e q =
          let recs : List WorkItemRecord =
            decodable (st.scan_bytes (work_prefix run_id) (env c₁)) in
          let all = replay_records-Rebuilt recs (boot_state held.epoch) in
          let same : replay_records recs (boot_state held.epoch) ≡ s = cc in
          (
            recs,
            cc,
            held,
            c₁,
            e,
            sym (subst (λ x. held.epoch ≡ x.epoch) same (sym all.epoch)),
            subst (λ x. x.pending ≡ pending_ids recs) same all.pending,
            subst (λ x. x.terminal ≡ count_terminal recs) same (omega (arith, all.terminal)),
            subst (λ x. (id : ContentId) → lookup_entry id x.in_flight ≡ owner_from none id recs)
                same all.in_flight,
          )

  acquire_frame :
      (run_id : RunId) (me : WorkerId) (ttl_ms now : ℕ) (c c' : st.Contents)
      (r : Option LeaseRecord) (j : StorageKey)
      → key_eq (lease_key run_id) j ≡ false
      → key_eq (epoch_key run_id) j ≡ false
      → Outcome run_id me ttl_ms now c r c'
      → st.get_bytes j c' ≡ st.get_bytes j c
  acquire_frame run_id me ttl_ms now c c' r j n n' (first e q cl) = cl.frame j n n'
  acquire_frame run_id me ttl_ms now c c' r j n n' (steal prior cur e d late q cl) = cl.frame j n n'
  acquire_frame run_id me ttl_ms now c c' r j n n' (refused q u) = cc

  -- A boot writes to no row of the work ledger, won or lost: it requeues nothing.
  pub replay_leaves_ledger :
      (run_id : RunId) (me : WorkerId) (ttl_ms now : ℕ) (read c : st.Contents)
      (r : Option ReplayState) (c' : st.Contents) (id : ContentId)
      → replay_and_serve run_id me ttl_ms now (λ x. x) read c ≡ ok (r, c')
      → st.get_bytes (work_key run_id id) c' ≡ st.get_bytes (work_key run_id id) c
  unfolding replay_and_serve
  replay_leaves_ledger run_id me ttl_ms now read c r c' id h =
      let ((g, c₁), e, h₁) = >>=-eq-ok (try_acquire run_id me ttl_ms now read c) _ h in
      ap (st.get_bytes (work_key run_id id)) (sym (by_grant g c₁ (ok-injective _ _ h₁)))
      ∙ acquire_frame run_id me ttl_ms now c c₁ g (work_key run_id id) refl refl
          (try_acquire-Outcome run_id me ttl_ms now read c e)
    where
      by_grant :
          (g : Option LeaseRecord) (c₁ : st.Contents)
          → replay_held run_id (λ x. x) (g, c₁) ≡ (r, c')
          → c₁ ≡ c'
      by_grant none c₁ q = cc
      by_grant (some held) c₁ q = cc
