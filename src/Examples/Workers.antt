-- ===== src/Examples/Workers.antt =====
-- Heartbeats and scans.
use rollout.Prelude.{
  ◌≡◌, refl, true, List, [], ◌∷◌, ◌++◌, Option, some, none, All, take, drop, take-length-append,
  drop-length-append,
}
use rollout.Core.Ids.{Bytes}
use rollout.Core.Keys.{StorageKey}
use rollout.Store.{Codec}
use rollout.Store.Assoc.{assoc_storage}
use rollout.Coordinator.Registry.{
  WorkerRegistryEntry, HeartbeatRecord, Heartbeat, ready, worker_key, heartbeat_key, heartbeats,
  scan_once,
}
use rollout.Coordinator.Registry.Reports.{NoRepeat, ids, overdue, Reported, scan_once-Reported}
use rollout.Examples.Data.{reads, framed, plain_ulids}

abbrev Rows : Type 0
Rows = List (StorageKey × Bytes)

abbrev entry_of_bytes : Bytes → Option WorkerRegistryEntry
entry_of_bytes (t ∷ n ∷ rest) =
    some (record { worker_id = take n rest; run_id = drop n rest; registered_at_ms = t })
entry_of_bytes _ = none

entry_round_trip :
    (e : WorkerRegistryEntry)
    → entry_of_bytes (e.registered_at_ms ∷ framed e.worker_id e.run_id) ≡ some e
entry_round_trip e =
    rw (take-length-append e.worker_id e.run_id, drop-length-append e.worker_id e.run_id) refl

instance abbrev entry_codec : Codec WorkerRegistryEntry
entry_codec = record {
  to_stdvec = λ e. some (e.registered_at_ms ∷ framed e.worker_id e.run_id);
  from_bytes = entry_of_bytes;
  round_trip = λ e b h. reads entry_of_bytes e (entry_round_trip e) h;
}

abbrev beat_of_bytes : Bytes → Option HeartbeatRecord
beat_of_bytes (s ∷ d ∷ r ∷ n ∷ rest) = some (record {
  worker_id = take n rest;
  run_id = drop n rest;
  state = s;
  due_at_ms = d;
  received_at_ms = r;
})
beat_of_bytes _ = none

beat_round_trip :
    (b : HeartbeatRecord)
    → beat_of_bytes (b.state ∷ b.due_at_ms ∷ b.received_at_ms ∷ framed b.worker_id b.run_id)
      ≡ some b
beat_round_trip b =
    rw (take-length-append b.worker_id b.run_id, drop-length-append b.worker_id b.run_id) refl

instance abbrev beat_codec : Codec HeartbeatRecord
beat_codec = record {
  to_stdvec = λ b. some (b.state ∷ b.due_at_ms ∷ b.received_at_ms ∷ framed b.worker_id b.run_id);
  from_bytes = beat_of_bytes;
  round_trip = λ b v h. reads beat_of_bytes b (beat_round_trip b) h;
}

abbrev first_beat : Heartbeat
first_beat = record { worker_id = 11; run_id = 1; state = ready; due_at = 4000 }

-- After the first heartbeat of an unknown worker.
abbrev known : Rows
known =
    (worker_key 11, 2000 ∷ 1 ∷ 11 ∷ 1 ∷ [])
    ∷ (heartbeat_key 11, 2 ∷ 4000 ∷ 2000 ∷ 1 ∷ 11 ∷ 1 ∷ [])
    ∷ []

scan_once-Reported_example :
    All (λ rec. overdue 9000 500 1000 rec ≡ true) (scan_once 9000 500 1000 [] known).1
    × ((scan_once 9000 500 1000 [] known).0 ≡ [] ++ ids (scan_once 9000 500 1000 [] known).1)
    × NoRepeat (scan_once 9000 500 1000 [] known).0
    × Reported 9000 500 1000
        (assoc_storage.scan_bytes heartbeats known)
        (scan_once 9000 500 1000 [] known).0
scan_once-Reported_example = scan_once-Reported 9000 500 1000 [] known tt
