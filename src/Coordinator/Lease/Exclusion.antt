-- ===== src/Coordinator/Lease/Exclusion.antt =====
-- Who can take or keep the lease.
use rollout.Prelude.{
  ℕ, ◌≡◌, ◌≢◌, ◌≤◌, ◌<◌, refl, Bool, true, false, Option, some, none, arith, Bool-cases, inl, inr,
  ltb, lt→ltb, ltb→lt,
}
use rollout.Core.Ids.{Bytes, RunId, WorkerId}
use rollout.Core.Errors.{Result, ok, ◌>>=◌, >>=-eq-ok}
use rollout.Store.{Storage, Codec, encode, decode, decode-encode}
use rollout.Coordinator.Lease.{
  LeaseRecord, lease_key, fresh, stolen, extended, then_some, acquire_from, try_acquire, renew,
}
use rollout.Coordinator.Lease.Claim.{
  LeaseIs, EpochIs, LeaseIs-unique, Claimed, commit_claim-Claimed, claim_record-Claimed,
  claim_record-granted,
}

module _ ⦃st : Storage⦄ ⦃leases : Codec LeaseRecord⦄ ⦃epochs : Codec ℕ⦄ where
  -- The record that decodes from the current row is the one that the row holds.
  pub LeaseIs-decode :
      {run_id : RunId} {rec cur : LeaseRecord} {c : st.Contents} {prior : Bytes}
      → LeaseIs run_id rec c
      → st.get_bytes (lease_key run_id) c ≡ some prior
      → decode prior ≡ ok cur
      → cur ≡ rec
  LeaseIs-decode {rec} {cur} l g d =
      let b : _ = l.bytes in cc (decode-encode rec l.encoded, l.stored, g, d)

  -- The four ways in which an acquire ends, by what its claim expected.
  pub data Outcome (run_id : RunId) (me : WorkerId) (ttl_ms now : ℕ) (c : st.Contents)
      (r : Option LeaseRecord) (c' : st.Contents) : Type 0 where
    first :
        st.get_bytes (lease_key run_id) c ≡ none
        → r ≡ some (fresh me now ttl_ms)
        → Claimed run_id none (fresh me now ttl_ms) c true c'
        → Outcome run_id me ttl_ms now c r c'
    steal :
        (prior : Bytes) (cur : LeaseRecord)
        → st.get_bytes (lease_key run_id) c ≡ some prior
        → decode prior ≡ ok cur
        → cur.expires_at_ms < now
        → r ≡ some (stolen cur me now ttl_ms)
        → Claimed run_id (some prior) (stolen cur me now ttl_ms) c true c'
        → Outcome run_id me ttl_ms now c r c'
    refused : r ≡ none → c' ≡ c → Outcome run_id me ttl_ms now c r c'

  acquire_from-Outcome :
      (run_id : RunId) (me : WorkerId) (ttl_ms now : ℕ) (seen : Option Bytes) (c : st.Contents)
      (r : Option LeaseRecord) (c' : st.Contents)
      → acquire_from run_id me ttl_ms now seen c ≡ ok (r, c')
      → Outcome run_id me ttl_ms now c r c'
  unfolding acquire_from
  acquire_from-Outcome run_id me ttl_ms now none c r c' h =
      by_win (claim_record-Claimed run_id none (fresh me now ttl_ms) c h)
    where
      by_win :
          ((won : Bool) × (r ≡ then_some won (fresh me now ttl_ms))
            × Claimed run_id none (fresh me now ttl_ms) c won c')
          → Outcome run_id me ttl_ms now c r c'
      by_win (true, e, cl) = first (cl.before refl) e cl
      by_win (false, e, cl) = refused e (cl.unchanged refl)
  acquire_from-Outcome run_id me ttl_ms now (some prior) c r c' h =
      let (cur, d, h₁) = >>=-eq-ok (decode prior) _ h in
      elim (Bool-cases (ltb cur.expires_at_ms now)) [
        | inl late ↦
            by_win cur d (ltb→lt _ _ late) (
              claim_record-Claimed run_id (some prior) (stolen cur me now ttl_ms) c (rw late at h₁))
        | inr live ↦
            let end : ◌≡◌ {A = Result (Option LeaseRecord × st.Contents)} (ok (none, c))
                (ok (r, c')) =
              rw live at h₁ in
            refused (cc) (cc)
      ]
    where
      by_win :
          (cur : LeaseRecord)
          → decode prior ≡ ok cur
          → cur.expires_at_ms < now
          → ((won : Bool) × (r ≡ then_some won (stolen cur me now ttl_ms))
              × Claimed run_id (some prior) (stolen cur me now ttl_ms) c won c')
          → Outcome run_id me ttl_ms now c r c'
      by_win cur d late (true, e, cl) = steal prior cur (cl.before refl) d late e cl
      by_win cur d late (false, e, cl) = refused e (cl.unchanged refl)

  pub try_acquire-Outcome :
      (run_id : RunId) (me : WorkerId) (ttl_ms now : ℕ) (read c : st.Contents)
      {r : Option LeaseRecord} {c' : st.Contents}
      → try_acquire run_id me ttl_ms now read c ≡ ok (r, c')
      → Outcome run_id me ttl_ms now c r c'
  unfolding try_acquire
  try_acquire-Outcome run_id me ttl_ms now read c {r} {c'} h =
      acquire_from-Outcome run_id me ttl_ms now (st.get_bytes (lease_key run_id) read) c r c' h

  -- While a lease has not expired nobody else is granted it, whatever the caller had read before:
  -- the attempt returns nothing and writes nothing.
  pub live_lease_excludes :
      (run_id : RunId) (rec : LeaseRecord) (me : WorkerId) (ttl_ms now : ℕ) (read c : st.Contents)
      {r : Option LeaseRecord} {c' : st.Contents}
      → LeaseIs run_id rec c
      → now ≤ rec.expires_at_ms
      → try_acquire run_id me ttl_ms now read c ≡ ok (r, c')
      → (r ≡ none) × (c' ≡ c)
  live_lease_excludes run_id rec me ttl_ms now read c {r} {c'} l live h =
      by_outcome (try_acquire-Outcome run_id me ttl_ms now read c h)
    where
      by_outcome : Outcome run_id me ttl_ms now c r c' → (r ≡ none) × (c' ≡ c)
      by_outcome (first g e cl) = absurd (cc (l.stored, g))
      by_outcome (steal prior cur g d late e cl) =
          let same : cur ≡ rec = LeaseIs-decode l g d in
          absurd (omega (arith, late, live, ap_expires same))
        where
          ap_expires : cur ≡ rec → cur.expires_at_ms ≡ rec.expires_at_ms
          ap_expires e = cc
      by_outcome (refused e u) = (e, u)

  -- Once the lease has expired, a caller that reads the current row takes it, and the epoch goes up
  -- by one (modulo 2^64). The encoders must succeed on the record written.
  pub expired_lease_changes_hands :
      (run_id : RunId) (rec : LeaseRecord) (me : WorkerId) (ttl_ms now : ℕ) (c : st.Contents)
      {b eb : Bytes}
      → LeaseIs run_id rec c
      → rec.expires_at_ms < now
      → encode (stolen rec me now ttl_ms) ≡ ok b
      → encode (stolen rec me now ttl_ms).epoch ≡ ok eb
      → (c' : st.Contents) × (try_acquire run_id me ttl_ms now c c
          ≡ ok (some (stolen rec me now ttl_ms), c'))
        × LeaseIs run_id (stolen rec me now ttl_ms) c'
        × EpochIs run_id (stolen rec me now ttl_ms).epoch c'
  unfolding try_acquire
  expired_lease_changes_hands run_id rec me ttl_ms now c l late e ee =
      let (c', granted) =
        claim_record-granted run_id (some l.bytes) (stolen rec me now ttl_ms) c e ee l.stored in
      let (won, r, cl) =
        claim_record-Claimed run_id (some l.bytes) (stolen rec me now ttl_ms) c granted in
      let win : won ≡ true = cl.hit l.stored in
      (
        c',
        rw (l.stored, acquire_from, decode-encode rec l.encoded, ◌>>=◌, lt→ltb _ _ late) granted,
        cl.lease win,
        cl.epoch win,
      )

  -- A renewal is a claim from the record held, with the same holder and epoch.
  pub renew-Claimed :
      (run_id : RunId) (held : LeaseRecord) (ttl_ms now : ℕ) (c : st.Contents) {won : Bool}
      {c' : st.Contents}
      → renew run_id held ttl_ms now c ≡ ok (won, c')
      → (b : Bytes) × (encode held ≡ ok b)
        × Claimed run_id (some b) (extended held now ttl_ms) c won c'
  unfolding renew
  renew-Claimed run_id held ttl_ms now c h =
      let (b, e, h₁) = >>=-eq-ok (encode held) _ h in
      (b, e, commit_claim-Claimed run_id (some b) (extended held now ttl_ms) c h₁)

  pub renew-won :
      (run_id : RunId) (held : LeaseRecord) (ttl_ms now : ℕ) (c : st.Contents) {c' : st.Contents}
      → renew run_id held ttl_ms now c ≡ ok (true, c')
      → LeaseIs run_id held c
  renew-won run_id held ttl_ms now c h =
      let (b, e, cl) = renew-Claimed run_id held ttl_ms now c h in
      record { bytes = b; encoded = e; stored = cl.before refl }

  -- A coordinator whose record is no longer the one in the row cannot renew it, and the attempt
  -- writes nothing: so a coordinator whose lease was stolen learns that it must stop.
  pub deposed_renew_fails :
      (run_id : RunId) (rec held : LeaseRecord) (ttl_ms now : ℕ) (c : st.Contents) {won : Bool}
      {c' : st.Contents}
      → LeaseIs run_id rec c
      → held ≢ rec
      → renew run_id held ttl_ms now c ≡ ok (won, c')
      → (won ≡ false) × (c' ≡ c)
  deposed_renew_fails run_id rec held ttl_ms now c {won = true} l ne h =
      absurd (ne (LeaseIs-unique (renew-won run_id held ttl_ms now c h) l))
  deposed_renew_fails run_id rec held ttl_ms now c {won = false} l ne h =
      let (b, e, cl) = renew-Claimed run_id held ttl_ms now c h in (refl, cl.unchanged refl)
