-- ===== src/Queue.antt =====
-- crates/rollout-cloud-local/src/queue.rs: the in-memory queue, mirrored into a store.
pub mod Restart
pub mod Delivery
use rollout.Prelude.{
  ℕ, ◌==◌, leb, Bool, true, false, not, ◌&&◌, ◌||◌, List, [], ◌∷◌, ◌++◌, Option, none, some, codes,
  if◌then◌else◌,
}
use rollout.Prelude.Sort.{sort_by}
use rollout.Core.Ids.{Bytes}
use rollout.Core.Errors.{
  Result, ok, err, ◌>>=◌, or_internal, CoreError, recoverable, transient, RetryHint, never,
}
use rollout.Core.Keys.{StorageKey}
use rollout.Core.Externals.{UlidText}
use rollout.Store.{Storage}

-- The pending items in order, and the store that backs them.
pub record InMemQueue ⦃st : Storage⦄ : Type 0 where
  pub inner : List (ℕ × Bytes)
  pub storage : st.Contents

abbrev pub queue_namespace : Bytes
queue_namespace = codes "cloudlocal_queue"

abbrev pub all_items : StorageKey
all_items = record { namespace = queue_namespace; run_id = none; path = [] }

abbrev pub first_segment : List Bytes → Option Bytes
first_segment [] = none
first_segment (x ∷ xs) = some x

abbrev pub is_some : Option Bytes → Bool
is_some none = false
is_some (some v) = true

-- `sort_by_key(|(id, _)| id.0)`
abbrev pub id_leb : ℕ × Bytes → ℕ × Bytes → Bool
id_leb a b = leb a.0 b.0

abbrev pub any_id : ℕ → List (ℕ × Bytes) → Bool
any_id id [] = false
any_id id ((qid, payload) ∷ items) = (qid == id) || any_id id items

module _ ⦃ulids : UlidText⦄ where
  abbrev pub key_for : ℕ → StorageKey
  key_for id = record { namespace = queue_namespace; run_id = none; path = ulids.ulid_str id ∷ [] }

  abbrev pub parse_segment : Option Bytes → Option ℕ
  parse_segment none = none
  parse_segment (some seg) = ulids.parse_ulid seg

  -- The rows whose key names an item; the others are passed over.
  abbrev pub push_item : Option ℕ → Bytes → List (ℕ × Bytes) → List (ℕ × Bytes)
  push_item none payload items = items
  push_item (some id) payload items = (id, payload) ∷ items

  unfoldable pub items_of : List (StorageKey × Bytes) → List (ℕ × Bytes)
  items_of [] = []
  items_of ((k, payload) ∷ rows) =
      push_item (parse_segment (first_segment k.path)) payload (items_of rows)

module _ ⦃st : Storage⦄ ⦃ulids : UlidText⦄ where
  unfoldable pub open_queue : st.Contents → InMemQueue
  unfolding items_of
  open_queue storage = record {
    inner = sort_by id_leb (items_of (st.scan_bytes all_items storage));
    storage = storage;
  }

  -- `generated` is the answer of the generator of ids: none where it overflows.
  unfoldable pub enqueue : Option ℕ → Bytes → InMemQueue → Result (ℕ × InMemQueue)
  enqueue generated payload q = do
    id ← or_internal "ulid monotonic overflow" generated
    ok (
      id,
      record {
        inner = q.inner ++ (id, payload) ∷ [];
        storage = st.put_bytes (key_for id) payload q.storage;
      },
    )

  abbrev pub pop_front : List (ℕ × Bytes) → InMemQueue → Option (ℕ × Bytes) × InMemQueue
  pop_front [] q = (none, q)
  pop_front (item ∷ items) q = (some item, record q { inner = items })

  unfoldable pub dequeue : InMemQueue → Option (ℕ × Bytes) × InMemQueue
  dequeue q = pop_front q.inner q

  unfoldable pub ack : ℕ → InMemQueue → InMemQueue
  ack id q = record q { storage = st.delete (key_for id) q.storage }

  unfoldable pub nack : ℕ → InMemQueue → Result InMemQueue
  nack id q = do
    payload ←
        or_internal "nack: queue item absent from storage" (st.get_bytes (key_for id) q.storage)
    ok (record q { inner = (id, payload) ∷ q.inner })

  abbrev pub with_token : Option (ℕ × Bytes) × InMemQueue → Option (ℕ × Bytes × ℕ) × InMemQueue
  with_token (none, q) = (none, q)
  with_token (some (id, payload), q) = (some (id, payload, id), q)

  -- The token of a lease is the id of the item.
  unfoldable pub dequeue_with_lease : ℕ → InMemQueue → Option (ℕ × Bytes × ℕ) × InMemQueue
  unfolding dequeue
  dequeue_with_lease lease q = with_token (dequeue q)

  unfoldable pub extend_lease : ℕ → ℕ → ℕ → InMemQueue → Result {0} Unit
  extend_lease id token extend_by q =
      let in_storage : Bool = is_some (st.get_bytes (key_for id) q.storage) in
      let in_deque : Bool = any_id id q.inner in
      if in_storage && not in_deque
      then ok tt
      else err (recoverable (transient "extend_lease: not in-flight" never))
