-- ===== src/Examples/Work.antt =====
-- Work items, dispatches and steals, on a store of a few rows.
use rollout.Prelude.{
  Member, inl, inr, true, ℕ, ◌+◌, ◌*◌, ◌≡◌, ◌≢◌, ◌≤◌, refl, false, List, [], ◌∷◌, some, none, All,
  codes, ◌⊎◌, keep,
}
use rollout.Prelude.Sort.{insert_by, sort_by, option_leb, last?}
use rollout.Core.Ids.{Bytes, content_str}
use rollout.Core.Errors.{ok}
use rollout.Core.Keys.{StorageKey, key_eq, key_has_prefix}
use rollout.Store.{encode, decode, cas_bytes, store_new}
use rollout.Store.Assoc.{assoc_storage, put_row, delete_row, scan_rows}
use rollout.Coordinator.WorkItem.{
  WorkState, pending, running, done, WorkItemRecord, work_key, swap_state, try_claim, try_repending,
}
use rollout.Coordinator.WorkItem.Swap.{Holds}
use rollout.Coordinator.WorkItem.Race.{claim, apply, second_call_loses}
use rollout.Coordinator.WorkItem.Life.{apply_all, terminal_forever}
use rollout.Coordinator.Ledger.{
  queue_prefix, next_pending_entry, dispatch, decode_all, count_running, busiest, backlog,
}
use rollout.Coordinator.Ledger.Dispatch.{
  item_of, dispatch_assigns, concurrent_dispatch_assigns_twice,
}
use rollout.Coordinator.Steal.{
  max_steal_batch, handle_steal_request, steal_from, steal_loop, steal_one, reclaim, victim_items,
}
use rollout.Coordinator.Steal.Request.{Owned}
use rollout.Coordinator.Steal.Outcome.{steal_is_fair}
use rollout.Examples.Data.{item_codec, plain_hash}

abbrev Rows : Type 0
Rows = List (StorageKey × Bytes)

-- An item by one byte, in a state.
abbrev item : ℕ → WorkState → WorkItemRecord
item n s = record { id = n ∷ []; state = s }

abbrev item_row : ℕ → Bytes → StorageKey × Bytes
item_row n bytes = (work_key 1 (n ∷ []), bytes)

abbrev waiting : Rows
waiting = item_row 7 (0 ∷ 7 ∷ []) ∷ []

abbrev taken : Rows
taken = item_row 7 (1 ∷ 11 ∷ 5 ∷ 7 ∷ []) ∷ []

abbrev finished : Rows
finished = item_row 7 (2 ∷ 1 ∷ 9 ∷ 7 ∷ []) ∷ []

second_call_loses_example : (false ≡ false) × (taken ≡ taken)
unfolding apply try_claim swap_state encode cas_bytes store_new put_row content_str
second_call_loses_example =
    second_call_loses 1 (item 7 pending) (claim 11 5) (claim 12 6) waiting {c₁ = taken} {c₂ = taken}
      {won = false} refl refl

-- A late claim by another worker of the record that it read before the item was done.
terminal_forever_example : Holds 1 (item 7 (done (9 ∷ []))) finished
unfolding apply_all apply try_claim swap_state encode cas_bytes store_new put_row content_str
terminal_forever_example =
    terminal_forever 1 ((item 7 pending, claim 12 6) ∷ []) (item 7 (done (9 ∷ []))) finished
      finished refl (record { bytes = 2 ∷ 1 ∷ 9 ∷ 7 ∷ []; encoded = refl; stored = refl }) refl

abbrev entry : ℕ → Bytes → StorageKey × Bytes
entry n payload = (
  record { namespace = codes "queue_items"; run_id = some 1; path = codes "q" ∷ (n ∷ []) ∷ [] },
  payload,
)

-- Two entries, the later one first.
abbrev queued : Rows
queued = entry 4 (8 ∷ []) ∷ entry 3 (7 ∷ []) ∷ []

queued_3 : Member (entry 3 (7 ∷ [])) (assoc_storage.scan_bytes (queue_prefix 1) queued)
unfolding scan_rows delete_row
queued_3 = inr (inl refl)

items_encode : (rec : WorkItemRecord) → (b : Bytes) × (encode rec ≡ ok b)
unfolding encode
items_encode rec = (_, refl)

dispatch_assigns_example :
    (k : StorageKey) × (payload : Bytes) × (c' : Rows) × (key_has_prefix k (queue_prefix 1) ≡ true)
    × (assoc_storage.get_bytes k queued ≡ some payload)
    × All
        (λ e. option_leb (last? k.path) (last? e.0.path) ≡ true)
        (assoc_storage.scan_bytes (queue_prefix 1) queued)
    × (dispatch 1 11 5 queued queued ≡ ok (some payload, c'))
    × Holds 1 (item_of payload (running 11 5)) c'
    × (assoc_storage.get_bytes k c' ≡ none)
    × ((j : StorageKey)
        → key_eq k j ≡ false
        → key_eq (work_key 1 payload) j ≡ false
        → assoc_storage.get_bytes j c' ≡ assoc_storage.get_bytes j queued)
dispatch_assigns_example =
    dispatch_assigns 1 11 5 queued queued (entry 3 (7 ∷ [])) queued_3 items_encode

concurrent_dispatch_assigns_twice_example :
    (c₁ c₂ : Rows) × (dispatch 1 11 5 queued queued ≡ ok (some (7 ∷ []), c₁))
    × Holds 1 (item_of (7 ∷ []) (running 11 5)) c₁
    × (dispatch 1 12 6 queued c₁ ≡ ok (some (7 ∷ []), c₂))
    × Holds 1 (item_of (7 ∷ []) (running 12 6)) c₂
unfolding next_pending_entry sort_by insert_by scan_rows delete_row encode content_str
concurrent_dispatch_assigns_twice_example =
    concurrent_dispatch_assigns_twice 1 11 12 5 6 queued (entry 3 (7 ∷ [])).0 (7 ∷ []) (0 ∷ 7 ∷ [])
      (1 ∷ 11 ∷ 5 ∷ 7 ∷ []) (1 ∷ 12 ∷ 6 ∷ 7 ∷ []) refl refl refl refl

-- Two items run on worker 11.
abbrev loaded : Rows
loaded = item_row 7 (1 ∷ 11 ∷ 5 ∷ 7 ∷ []) ∷ item_row 8 (1 ∷ 11 ∷ 5 ∷ 8 ∷ []) ∷ []

abbrev loaded_records : List WorkItemRecord
loaded_records = item 7 (running 11 5) ∷ item 8 (running 11 5) ∷ []

abbrev robbed : Rows
robbed = item_row 7 (1 ∷ 12 ∷ 6 ∷ 7 ∷ []) ∷ item_row 8 (1 ∷ 11 ∷ 5 ∷ 8 ∷ []) ∷ []

steal_is_fair_example :
    All (Owned 1 12 6 robbed) ((7 ∷ []) ∷ [])
    × (1 ≤ max_steal_batch)
    × (◌≡◌ {A = List Bytes} ((7 ∷ []) ∷ []) []
        ⊎ ((victim : ℕ) × (victim ≢ 12)
            × (2 * 1 ≤ count_running victim loaded_records + 1)
            × ((v : ℕ)
                → v ≢ 12
                → count_running v loaded_records ≤ count_running victim loaded_records)))
unfolding decode_all decode scan_rows delete_row content_str handle_steal_request steal_from
    steal_loop steal_one reclaim victim_items backlog busiest try_claim try_repending swap_state
    encode cas_bytes store_new put_row sort_by keep
steal_is_fair_example =
    steal_is_fair 1 12 6 (λ rec c. c) loaded loaded loaded loaded_records ((7 ∷ []) ∷ []) robbed
      refl (λ rec c id h. h) refl
