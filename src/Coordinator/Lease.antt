-- ===== src/Coordinator/Lease.antt =====
-- crates/rollout-core/src/traits/lease.rs and crates/rollout-coordinator/src/lease.rs: the one
-- coordinator lease of a run, a compare-and-swap on one row. Times are Unix milliseconds (u128),
-- an epoch is a u64; both wrap around as the additions of a release build do.
pub mod Claim
pub mod Exclusion
pub mod Epochs
pub mod Authority
use rollout.Prelude.{
  ℕ, ◌+◌, ◌%◌, ◌^◌, ◌≡◌, Bool, true, false, List, [], ◌∷◌, Option, some, none, codes, if◌then◌else◌,
  ltb,
}
use rollout.Core.Ids.{Bytes, RunId, WorkerId}
use rollout.Core.Errors.{Result, ok, err, ◌>>=◌}
use rollout.Core.Keys.{StorageKey}
use rollout.Store.{Storage, Codec, encode, decode, cas_bytes}

abbrev pub CoordEpoch : Type 0
CoordEpoch = ℕ

pub record LeaseRecord : Type 0 where
  pub holder : WorkerId
  pub epoch : CoordEpoch
  pub expires_at_ms : ℕ

abbrev pub u64_mod : ℕ
u64_mod = 2 ^ 64

abbrev pub u128_mod : ℕ
u128_mod = 2 ^ 128

abbrev pub lease_key : RunId → StorageKey
lease_key run_id = record { namespace = codes "coordinator_lease"; run_id = some run_id; path = [] }

abbrev pub epoch_key : RunId → StorageKey
epoch_key run_id = record { namespace = codes "epoch"; run_id = some run_id; path = [] }

-- The record that a caller tries to write: at the first acquire, after an expiry, and to renew.
abbrev pub fresh : WorkerId → ℕ → ℕ → LeaseRecord
fresh me now ttl_ms = record { holder = me; epoch = 0; expires_at_ms = (now + ttl_ms) % u128_mod }

abbrev pub stolen : LeaseRecord → WorkerId → ℕ → ℕ → LeaseRecord
stolen cur me now ttl_ms = record {
  holder = me;
  epoch = (cur.epoch + 1) % u64_mod;
  expires_at_ms = (now + ttl_ms) % u128_mod;
}

abbrev pub extended : LeaseRecord → ℕ → ℕ → LeaseRecord
extended held now ttl_ms = record {
  holder = held.holder;
  epoch = held.epoch;
  expires_at_ms = (now + ttl_ms) % u128_mod;
}

-- `won.then_some(next)`
abbrev pub then_some : Bool → LeaseRecord → Option LeaseRecord
then_some true next = some next
then_some false next = none

module _ ⦃st : Storage⦄ ⦃leases : Codec LeaseRecord⦄ ⦃epochs : Codec ℕ⦄ where
  -- The end of the claim's transaction: the epoch row is written with the lease row, or nothing is.
  unfoldable pub stamp_epoch_row :
      RunId → LeaseRecord → st.Contents → Bool × st.Contents → Result (Bool × st.Contents)
  stamp_epoch_row run_id next c (won, c₁) =
      let claimed : Result (Bool × st.Contents) =
        encode next.epoch >>= λ bytes. ok (true, st.put_bytes (epoch_key run_id) bytes c₁) in
      if won then claimed else ok (false, c)

  unfoldable pub commit_claim :
      RunId → Option Bytes → LeaseRecord → st.Contents → Result (Bool × st.Contents)
  unfolding stamp_epoch_row
  commit_claim run_id expected next c = do
    new ← encode next
    stamp_epoch_row run_id next c (cas_bytes (lease_key run_id) expected (some new) c)

  -- A claim, and the record that it grants.
  unfoldable pub claim_record :
      RunId → Option Bytes → LeaseRecord → st.Contents → Result (Option LeaseRecord × st.Contents)
  claim_record run_id expected next c = do
    r ← commit_claim run_id expected next c
    ok (then_some r.0 next, r.1)

  -- `try_acquire` after its read of the lease row.
  unfoldable pub acquire_from :
      RunId
      → WorkerId
      → ℕ
      → ℕ
      → Option Bytes
      → st.Contents
      → Result (Option LeaseRecord × st.Contents)
  unfolding claim_record
  acquire_from run_id me ttl_ms now none c = claim_record run_id none (fresh me now ttl_ms) c
  acquire_from run_id me ttl_ms now (some prior) c = do
    cur ← decode prior
    if ltb cur.expires_at_ms now
        then claim_record run_id (some prior) (stolen cur me now ttl_ms) c
        else ok (none, c)

  -- The row is read in `read`, and the transaction begins in `c`: other processes may write between.
  unfoldable pub try_acquire :
      RunId
      → WorkerId
      → ℕ
      → ℕ
      → st.Contents
      → st.Contents
      → Result (Option LeaseRecord × st.Contents)
  unfolding acquire_from
  try_acquire run_id me ttl_ms now read c =
      acquire_from run_id me ttl_ms now (st.get_bytes (lease_key run_id) read) c

  unfoldable pub renew : RunId → LeaseRecord → ℕ → ℕ → st.Contents → Result (Bool × st.Contents)
  unfolding commit_claim
  renew run_id held ttl_ms now c = do
    expected ← encode held
    commit_claim run_id (some expected) (extended held now ttl_ms) c

  unfoldable pub current : RunId → st.Contents → Result (Option LeaseRecord)
  current run_id c = elim (st.get_bytes (lease_key run_id) c) [
    | none ↦ ok none
    | some bytes ↦ decode bytes >>= λ rec. ok (some rec)
  ]
