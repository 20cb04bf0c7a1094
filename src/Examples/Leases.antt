-- ===== src/Examples/Leases.antt =====
-- The lease: acquired, renewed, taken over, and read by a coordinator that boots.
use rollout.Prelude.{ℕ, ◌≡◌, refl, false, List, [], ◌∷◌, Option, some, none, arith}
use rollout.Core.Ids.{Bytes, content_str}
use rollout.Core.Errors.{ok}
use rollout.Core.Keys.{StorageKey}
use rollout.Store.{encode, decode, cas_bytes, store_new}
use rollout.Store.Assoc.{assoc_storage, put_row, delete_row, scan_rows}
use rollout.Coordinator.WorkItem.{WorkItemRecord, work_key, work_prefix}
use rollout.Coordinator.Lease.{
  LeaseRecord, lease_key, epoch_key, stamp_epoch_row, commit_claim, claim_record, acquire_from,
  try_acquire, renew,
}
use rollout.Coordinator.Lease.Claim.{LeaseIs, EpochIs}
use rollout.Coordinator.Lease.Exclusion.{live_lease_excludes, expired_lease_changes_hands}
use rollout.Coordinator.Lease.Epochs.{grant, Reach, start, later}
use rollout.Coordinator.Lease.Authority.{one_grant_per_epoch, deposed_is_fenced}
use rollout.Coordinator.Steal.{decodable}
use rollout.Coordinator.Replay.{ReplayState, lookup_entry, replay_records, replay_and_serve}
use rollout.Coordinator.Replay.Ledger.{pending_ids, count_terminal, owner_from, replay_rebuilds}
use rollout.Examples.Data.{item_codec, lease_codec, epoch_codec}

abbrev Rows : Type 0
Rows = List (StorageKey × Bytes)

-- Held by coordinator 21 in epoch 0 until 110, and then by coordinator 22 in epoch 1 until 160.
abbrev first_lease : LeaseRecord
first_lease = record { holder = 21; epoch = 0; expires_at_ms = 110 }

abbrev second_lease : LeaseRecord
second_lease = record { holder = 22; epoch = 1; expires_at_ms = 160 }

abbrev held_first : Rows
held_first = (lease_key 1, 21 ∷ 0 ∷ 110 ∷ []) ∷ (epoch_key 1, 0 ∷ []) ∷ []

abbrev held_second : Rows
held_second = (lease_key 1, 22 ∷ 1 ∷ 160 ∷ []) ∷ (epoch_key 1, 1 ∷ []) ∷ []

first_row : LeaseIs 1 first_lease held_first
unfolding encode
first_row = record { bytes = 21 ∷ 0 ∷ 110 ∷ []; encoded = refl; stored = refl }

second_row : LeaseIs 1 second_lease held_second
unfolding encode
second_row = record { bytes = 22 ∷ 1 ∷ 160 ∷ []; encoded = refl; stored = refl }

takes_first : try_acquire 1 21 10 100 [] [] ≡ ok (some first_lease, held_first)
unfolding try_acquire acquire_from claim_record commit_claim stamp_epoch_row encode decode cas_bytes
    store_new put_row
takes_first = refl

takes_second : try_acquire 1 22 10 150 held_first held_first ≡ ok (some second_lease, held_second)
unfolding try_acquire acquire_from claim_record commit_claim stamp_epoch_row encode decode cas_bytes
    store_new put_row
takes_second = refl

two_grants : Reach 1 (record { contents = held_second; granted = second_lease ∷ first_lease ∷ [] })
two_grants =
    later (later (start [] refl) (grant 21 10 100 [] held_first first_lease takes_first))
      (grant 22 10 150 held_first held_second second_lease takes_second)

live_lease_excludes_example : (◌≡◌ {A = Option LeaseRecord} none none) × (held_first ≡ held_first)
unfolding try_acquire acquire_from claim_record commit_claim stamp_epoch_row encode decode cas_bytes
    store_new put_row
live_lease_excludes_example =
    live_lease_excludes 1 first_lease 22 10 105 held_first held_first {r = none} {c' = held_first}
      first_row (omega arith) refl

expired_lease_changes_hands_example :
    (c' : Rows) × (try_acquire 1 22 10 150 held_first held_first ≡ ok (some second_lease, c'))
    × LeaseIs 1 second_lease c'
    × EpochIs 1 1 c'
unfolding encode
expired_lease_changes_hands_example =
    expired_lease_changes_hands 1 first_lease 22 10 150 held_first {b = 22 ∷ 1 ∷ 160 ∷ []}
      {eb = 1 ∷ []} first_row (omega arith) refl refl

one_grant_per_epoch_example : ◌≡◌ {A = ℕ} 0 0
one_grant_per_epoch_example =
    one_grant_per_epoch 1
      (record { contents = held_second; granted = second_lease ∷ first_lease ∷ [] }) 0 0
      second_lease second_lease two_grants (omega arith) refl refl refl

deposed_is_fenced_example : (false ≡ false) × (held_second ≡ held_second)
unfolding renew commit_claim stamp_epoch_row encode cas_bytes store_new put_row
deposed_is_fenced_example =
    deposed_is_fenced 1
      (record { contents = held_second; granted = second_lease ∷ first_lease ∷ [] }) 0 first_lease
      first_lease 10 155 {won = false} {c' = held_second} two_grants (omega arith) refl refl refl

-- A ledger with one item of each kind, in a store without a lease.
abbrev ledger : Rows
ledger =
    (work_key 1 (7 ∷ []), 1 ∷ 11 ∷ 5 ∷ 7 ∷ [])
    ∷ (work_key 1 (8 ∷ []), 0 ∷ 8 ∷ [])
    ∷ (work_key 1 (9 ∷ []), 2 ∷ 1 ∷ 4 ∷ 9 ∷ [])
    ∷ []

abbrev booted : Rows
booted =
    (work_key 1 (7 ∷ []), 1 ∷ 11 ∷ 5 ∷ 7 ∷ [])
    ∷ (work_key 1 (8 ∷ []), 0 ∷ 8 ∷ [])
    ∷ (work_key 1 (9 ∷ []), 2 ∷ 1 ∷ 4 ∷ 9 ∷ [])
    ∷ (lease_key 1, 21 ∷ 0 ∷ 110 ∷ [])
    ∷ (epoch_key 1, 0 ∷ [])
    ∷ []

abbrev rebuilt : ReplayState
rebuilt = record {
  epoch = 0;
  in_flight = ((7 ∷ []), 11) ∷ [];
  pending = (8 ∷ []) ∷ [];
  terminal = 1;
}

replay_rebuilds_example :
    (recs : List WorkItemRecord) × (recs
      ≡ decodable (assoc_storage.scan_bytes (work_prefix 1) booted))
    × (held : LeaseRecord) × (c₁ : Rows) × (try_acquire 1 21 10 100 ledger ledger
        ≡ ok (some held, c₁))
    × (0 ≡ held.epoch)
    × ((8 ∷ []) ∷ [] ≡ pending_ids recs)
    × (1 ≡ count_terminal recs)
    × ((id : Bytes) → lookup_entry id (((7 ∷ []), 11) ∷ []) ≡ owner_from none id recs)
unfolding replay_and_serve replay_records decodable scan_rows delete_row content_str try_acquire
    acquire_from claim_record commit_claim stamp_epoch_row encode decode cas_bytes store_new put_row
replay_rebuilds_example = replay_rebuilds 1 21 10 100 (λ c. c) ledger ledger rebuilt booted refl
