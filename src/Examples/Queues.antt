-- ===== src/Examples/Queues.antt =====
-- The queue, the drain of a worker, and the text of an id.
use rollout.Prelude.{ℕ, ◌<◌, ◌≡◌, refl, true, false, List, [], ◌∷◌, some, none, arith, Member, All}
use rollout.Prelude.Sort.{IsSortedBy}
use rollout.Core.Ids.{Bytes, ContentId}
use rollout.Core.Errors.{Result, ok, err, fatal, internal}
use rollout.Core.Keys.{StorageKey}
use rollout.Store.Assoc.{assoc_storage}
use rollout.Queue.{InMemQueue, id_leb, key_for, open_queue, dequeue, nack}
use rollout.Queue.Restart.{open_queue-recovers}
use rollout.Queue.Delivery.{nack_twice_delivers_twice}
use rollout.Coordinator.Drain.{Requeue, SnapshotPlan, Timing, aws, drain}
use rollout.Coordinator.Drain.Steps.{Ends}
use rollout.Coordinator.Drain.Order.{Stopped, Vacated, drain-Ends}
use rollout.Examples.Data.{plain_ulids}

abbrev Rows : Type 0
Rows = List (StorageKey × Bytes)

abbrev backed : Rows
backed = (key_for 9, 66 ∷ []) ∷ (key_for 4, 65 ∷ []) ∷ []

open_queue-recovers_example :
    ((id : ℕ) (payload : Bytes)
      → assoc_storage.get_bytes (key_for id) backed ≡ some payload
      → Member (id, payload) (open_queue backed).inner)
    × IsSortedBy id_leb (open_queue backed).inner
open_queue-recovers_example = open_queue-recovers backed

-- Both items are in flight.
abbrev in_flight : InMemQueue
in_flight = record { inner = []; storage = backed }

nack_twice_delivers_twice_example :
    (q₁ q₂ : InMemQueue) × (nack 4 in_flight ≡ ok q₁)
    × (nack 4 q₁ ≡ ok q₂)
    × (dequeue q₂ ≡ (some (4, 65 ∷ []), q₁))
    × (dequeue q₁ ≡ (some (4, 65 ∷ []), in_flight))
nack_twice_delivers_twice_example = nack_twice_delivers_twice 4 (65 ∷ []) in_flight refl

abbrev answered : InMemQueue → Result InMemQueue → Result {0} Unit × InMemQueue
answered q (ok q') = (ok tt, q')
answered q (err e) = (err e, q)

-- The queue that the drain gives back to.
instance abbrev in_mem : Requeue
in_mem = record { Items = InMemQueue; nack = λ id q. answered q (nack id q); cut_nack = λ id q. q }

abbrev plan : SnapshotPlan
plan = record { snapshotter = some (ok tt); remaining_budget = 50000; snapshot_cost = 2000 }

-- The rows of the worker are deleted, and then the event cannot be sent.
abbrev no_event : Timing
no_event = record {
  nack_ms = λ id. 10;
  save_ms = 2000;
  deregister_ms = 30;
  deregister = err (fatal (internal "emit"));
  left_anyway = true;
}

drain-Ends_example :
    Ends
      (Stopped aws (4 ∷ 9 ∷ []) in_flight)
      (Vacated aws (4 ∷ 9 ∷ []) in_flight)
      (drain (ok none) (4 ∷ 9 ∷ []) plan aws no_event in_flight false)
drain-Ends_example = drain-Ends none (4 ∷ 9 ∷ []) plan aws no_event in_flight false

abbrev zeros : ContentId
zeros =
    0 ∷ 0 ∷ 0 ∷ 0 ∷ 0 ∷ 0 ∷ 0 ∷ 0 ∷ 0 ∷ 0 ∷ 0 ∷ 0 ∷ 0 ∷ 0 ∷ 0 ∷ 0 ∷ 0 ∷ 0 ∷ 0 ∷ 0 ∷ 0 ∷ 0 ∷ 0 ∷ 0
    ∷ 0 ∷ 0 ∷ 0 ∷ 0 ∷ 0 ∷ 0 ∷ 255 ∷ 31 ∷ []

abbrev Small : (id : ContentId) → Type 0
Small id = All (λ b. b < 256) id

zeros-Small : Small zeros
zeros-Small = omega arith
