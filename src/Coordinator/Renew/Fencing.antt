-- ===== src/Coordinator/Renew/Fencing.antt =====
-- A tick of the renew loop.
use rollout.Prelude.{ℕ, ◌==◌, ◌≡◌, ◌≢◌, refl, true, false, some, [], ◌∷◌, arith, ==_iff}
use rollout.Core.Ids.{RunId, WorkerId}
use rollout.Core.Errors.{ok, ◌>>=◌}
use rollout.Store.{Storage, Codec, encode}
use rollout.Coordinator.Lease.{LeaseRecord, renew, extended}
use rollout.Core.Ids.{Bytes}
use rollout.Coordinator.Lease.Claim.{LeaseIs, commit_claim-granted, commit_claim-Claimed}
use rollout.Coordinator.Lease.Authority.{current-LeaseIs}
use rollout.Coordinator.Renew.{go_on, aborted, renew_tick}

module _ ⦃st : Storage⦄ ⦃leases : Codec LeaseRecord⦄ ⦃epochs : Codec ℕ⦄ where
  -- A coordinator that reads another holder in the lease row aborts without a write to the store,
  -- with one event that names both epochs.
  pub deposed_tick_aborts :
      (run_id : RunId) (me : WorkerId) (ttl_ms now start_epoch : ℕ) (read c : st.Contents)
      (held : LeaseRecord)
      → LeaseIs run_id held read
      → held.holder ≢ me
      → renew_tick run_id me ttl_ms now start_epoch read c
        ≡ aborted c (
            record { coord_id = me; run_id = run_id; stale = start_epoch; observed = held.epoch }
            ∷ [])
  unfolding renew_tick
  deposed_tick_aborts run_id me ttl_ms now start_epoch read c held l ne =
      rw (current-LeaseIs l, other) refl
    where
      other : (held.holder == me) ≡ false
      other = ground arith

  -- A coordinator that holds the lease and whose row nobody has changed since it read it goes on:
  -- the row then holds its record with the later deadline. The encoders must succeed.
  pub own_tick_renews :
      (run_id : RunId) (ttl_ms now start_epoch : ℕ) (c : st.Contents) (held : LeaseRecord)
      {b eb : Bytes}
      → LeaseIs run_id held c
      → encode (extended held now ttl_ms) ≡ ok b
      → encode held.epoch ≡ ok eb
      → (c' : st.Contents) × (renew_tick run_id held.holder ttl_ms now start_epoch c c ≡ go_on c')
        × LeaseIs run_id (extended held now ttl_ms) c'
  unfolding renew_tick renew
  own_tick_renews run_id ttl_ms now start_epoch c held l e ee =
      let (c', q) =
        commit_claim-granted run_id (some l.bytes) (extended held now ttl_ms) c e ee l.stored in
      let cl = commit_claim-Claimed run_id (some l.bytes) (extended held now ttl_ms) c q in
      (c', rw (current-LeaseIs l, mine, l.encoded, ◌>>=◌, q), cl.lease refl)
    where
      mine : (held.holder == held.holder) ≡ true
      mine = (==_iff held.holder held.holder).1 refl
