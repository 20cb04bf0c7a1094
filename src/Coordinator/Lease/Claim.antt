-- ===== src/Coordinator/Lease/Claim.antt =====
-- What a claim of the lease does to the two rows of the run and to all others.
use rollout.Prelude.{ℕ, ◌≡◌, refl, Bool, true, false, Option, some, arith, subst}
use rollout.Core.Ids.{Bytes, RunId}
use rollout.Core.Errors.{ok, ◌>>=◌, >>=-eq-ok, ok-injective}
use rollout.Core.Keys.{StorageKey, key_eq, key_eq_refl}
use rollout.Store.{
  Storage, Codec, encode, cas_bytes, store_new, cas-won, cas-hit, get-cas, encode-injective,
}
use rollout.Coordinator.Lease.{
  LeaseRecord, lease_key, epoch_key, commit_claim, claim_record, stamp_epoch_row, then_some,
}

module _ ⦃st : Storage⦄ ⦃leases : Codec LeaseRecord⦄ ⦃epochs : Codec ℕ⦄ where
  -- The lease row holds a record.
  pub record LeaseIs (run_id : RunId) (rec : LeaseRecord) (c : st.Contents) : Type 0 where
    pub bytes : Bytes
    pub encoded : encode rec ≡ ok bytes
    pub stored : st.get_bytes (lease_key run_id) c ≡ some bytes

  -- The epoch row holds an epoch.
  pub record EpochIs (run_id : RunId) (epoch : ℕ) (c : st.Contents) : Type 0 where
    pub bytes : Bytes
    pub encoded : encode epoch ≡ ok bytes
    pub stored : st.get_bytes (epoch_key run_id) c ≡ some bytes

  pub LeaseIs-unique :
      {run_id : RunId} {x y : LeaseRecord} {c : st.Contents}
      → LeaseIs run_id x c
      → LeaseIs run_id y c
      → x ≡ y
  LeaseIs-unique {x} {y} hx hy =
      encode-injective x y hx.encoded (cc (hy.encoded, hx.stored, hy.stored))

  pub record Claimed (run_id : RunId) (expected : Option Bytes) (next : LeaseRecord)
      (c : st.Contents) (won : Bool) (c' : st.Contents) : Type 0 where
    pub before : won ≡ true → st.get_bytes (lease_key run_id) c ≡ expected
    pub lease : won ≡ true → LeaseIs run_id next c'
    pub epoch : won ≡ true → EpochIs run_id next.epoch c'
    pub hit : st.get_bytes (lease_key run_id) c ≡ expected → won ≡ true
    pub unchanged : won ≡ false → c' ≡ c
    pub frame :
        (j : StorageKey)
        → key_eq (lease_key run_id) j ≡ false
        → key_eq (epoch_key run_id) j ≡ false
        → st.get_bytes j c' ≡ st.get_bytes j c

  stamped :
      (run_id : RunId) (expected : Option Bytes) (next : LeaseRecord) (c : st.Contents) {b : Bytes}
      → encode next ≡ ok b
      → (won : Bool) (c₁ : st.Contents)
      → cas_bytes (lease_key run_id) expected (some b) c ≡ (won, c₁)
      → (r : Bool) (c' : st.Contents) → stamp_epoch_row run_id next c (won, c₁) ≡ ok (r, c')
      → Claimed run_id expected next c r c'
  unfolding stamp_epoch_row
  stamped run_id expected next c {b} e false c₁ swap r c' h = record {
    before = λ w. absurd (cc);
    lease = λ w. absurd (cc);
    epoch = λ w. absurd (cc);
    hit = λ g. absurd (cc (cas-hit (lease_key run_id) expected (some b) c g));
    unchanged = λ w. cc;
    frame = λ j ne ne'. cc;
  }
  stamped run_id expected next c {b} e true c₁ swap r c' h =
      let (eb, ee, h₁) = >>=-eq-ok (encode next.epoch) _ h in
      let end : ◌≡◌ {A = Bool × st.Contents} (true, st.put_bytes (epoch_key run_id) eb c₁) (r, c') =
        ok-injective _ _ h₁ in
      record {
        before = λ w. cas-won (lease_key run_id) expected (some b) c (cc);
        lease = λ w. record {
          bytes = b;
          encoded = e;
          stored = ground (
            arith,
            get-cas (lease_key run_id) (lease_key run_id) expected b c,
            key_eq_refl (lease_key run_id),
            st.get-put (lease_key run_id) (epoch_key run_id) eb c₁,
          );
        };
        epoch = λ w. record {
          bytes = eb;
          encoded = ee;
          stored = ground (
            arith,
            st.get-put (epoch_key run_id) (epoch_key run_id) eb c₁,
            key_eq_refl (epoch_key run_id),
          );
        };
        hit = λ g. cc;
        unchanged = λ w. absurd (cc);
        frame = λ j ne ne'. ground (
          arith,
          get-cas j (lease_key run_id) expected b c,
          st.get-put j (epoch_key run_id) eb c₁,
        );
      }

  pub commit_claim-Claimed :
      (run_id : RunId) (expected : Option Bytes) (next : LeaseRecord) (c : st.Contents) {won : Bool}
      {c' : st.Contents}
      → commit_claim run_id expected next c ≡ ok (won, c')
      → Claimed run_id expected next c won c'
  unfolding commit_claim
  commit_claim-Claimed run_id expected next c {won} {c'} h =
      let (b, e, h₁) = >>=-eq-ok (encode next) _ h in
      stamped run_id expected next c e _ _ refl won c' h₁

  -- A claim grants its record exactly where its swap won.
  pub claim_record-Claimed :
      (run_id : RunId) (expected : Option Bytes) (next : LeaseRecord) (c : st.Contents)
      {r : Option LeaseRecord} {c' : st.Contents}
      → claim_record run_id expected next c ≡ ok (r, c')
      → (won : Bool) × (r ≡ then_some won next) × Claimed run_id expected next c won c'
  unfolding claim_record
  claim_record-Claimed run_id expected next c {r} {c'} h =
      let ((won, c₁), e, h₁) = >>=-eq-ok (commit_claim run_id expected next c) _ h in
      let end : ◌≡◌ {A = Option LeaseRecord × st.Contents} (then_some won next, c₁) (r, c') =
        ok-injective _ _ h₁ in
      let contents : c₁ ≡ c' = cc in
      (
        won,
        cc,
        subst (Claimed run_id expected next c won) contents
            (commit_claim-Claimed run_id expected next c e),
      )

  -- With encoders that do not fail, a claim on the current row is granted.
  pub commit_claim-granted :
      (run_id : RunId) (expected : Option Bytes) (next : LeaseRecord) (c : st.Contents)
      {b eb : Bytes}
      → encode next ≡ ok b
      → encode next.epoch ≡ ok eb
      → st.get_bytes (lease_key run_id) c ≡ expected
      → (c' : st.Contents) × (commit_claim run_id expected next c ≡ ok (true, c'))
  unfolding commit_claim stamp_epoch_row
  commit_claim-granted run_id expected next c {b} {eb} e ee g = (
    st.put_bytes (epoch_key run_id) eb (store_new (lease_key run_id) (some b) c),
    rw (e, cas-hit (lease_key run_id) expected (some b) c g, ee, ◌>>=◌),
  )

  pub claim_record-granted :
      (run_id : RunId) (expected : Option Bytes) (next : LeaseRecord) (c : st.Contents)
      {b eb : Bytes}
      → encode next ≡ ok b
      → encode next.epoch ≡ ok eb
      → st.get_bytes (lease_key run_id) c ≡ expected
      → (c' : st.Contents) × (claim_record run_id expected next c ≡ ok (some next, c'))
  unfolding claim_record
  claim_record-granted run_id expected next c e ee g =
      let (c', q) = commit_claim-granted run_id expected next c e ee g in (c', rw (q, ◌>>=◌))
