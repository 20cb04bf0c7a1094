-- ===== src/Coordinator/Registry.antt =====
-- crates/rollout-coordinator/src/registry.rs, heartbeat.rs and failure_scan.rs, and the deadlines of
-- crates/rollout-transport/src/health.rs. Times are in milliseconds. Events go to a list; an emitter
-- that fails is left out.
pub mod Liveness
pub mod Reports
use rollout.Prelude.{
  ℕ, ◌+◌, ◌*◌, ◌-◌, ◌/◌, ◌%◌, ltb, Bool, true, false, not, ◌&&◌, ◌||◌, List, [], ◌∷◌, ◌++◌, Option,
  none, some, codes, if◌then◌else◌, bytes_eq,
}
use rollout.Core.Ids.{Bytes, RunId, WorkerId}
use rollout.Core.Errors.{Result, ok, err, ◌>>=◌}
use rollout.Core.Keys.{StorageKey}
use rollout.Core.Externals.{UlidText}
use rollout.Store.{Storage, Codec, encode}
use rollout.Coordinator.Lease.{u64_mod}

pub data WorkerState : Type 0 where
  init : WorkerState
  ready : WorkerState
  running : WorkerState
  draining : WorkerState

pub record WorkerRegistryEntry : Type 0 where
  pub worker_id : Bytes
  pub run_id : Bytes
  pub registered_at_ms : ℕ

pub record HeartbeatRecord : Type 0 where
  pub worker_id : Bytes
  pub run_id : Bytes
  pub state : ℕ
  pub due_at_ms : ℕ
  pub received_at_ms : ℕ

pub record Heartbeat : Type 0 where
  pub worker_id : WorkerId
  pub run_id : RunId
  pub state : WorkerState
  pub due_at : ℕ

-- The topic of an event, and the worker that it names.
pub data Event : Type 0 where
  worker_registered : WorkerId → Event
  worker_deregistered : WorkerId → Event
  worker_heartbeat : WorkerId → Event

module _ ⦃ulids : UlidText⦄ where
  abbrev pub worker_key : WorkerId → StorageKey
  worker_key id = record {
    namespace = codes "workers";
    run_id = none;
    path = ulids.ulid_str id ∷ [];
  }

  abbrev pub heartbeat_key : WorkerId → StorageKey
  heartbeat_key id = record {
    namespace = codes "heartbeats";
    run_id = none;
    path = ulids.ulid_str id ∷ [];
  }

abbrev pub state_to_i32 : WorkerState → ℕ
state_to_i32 init = 1
state_to_i32 ready = 2
state_to_i32 running = 3
state_to_i32 draining = 4

-- The seconds fall to 0 where they do not fit 64 bits.
-- From 2^63 seconds on, up to the 2^64 where they are taken for 0, the addition to the epoch panics:
-- such times are left out.
unfoldable pub ms_to_systime : ℕ → ℕ
ms_to_systime ms = if ltb (ms / 1000) u64_mod then ms else ms % 1000

unfoldable pub next_due_at : ℕ → ℕ → ℕ
next_due_at now hb_interval = now + hb_interval * 2

unfoldable pub is_failed : ℕ → ℕ → ℕ → ℕ → Bool
is_failed now due_at skew coord_timeout =
    if ltb now due_at then false else ltb skew (now - due_at) && ltb coord_timeout (now - due_at)

module _ ⦃st : Storage⦄ ⦃ulids : UlidText⦄ ⦃entries : Codec WorkerRegistryEntry⦄
    ⦃beats : Codec HeartbeatRecord⦄ where
  -- `run_id` is the coordinator's; the events are appended.
  unfoldable pub register :
      RunId → WorkerId → ℕ → st.Contents × List Event → Result (st.Contents × List Event)
  register run_id worker now_ms (c, events) = do
    let entry : WorkerRegistryEntry = record {
      worker_id = ulids.ulid_str worker;
      run_id = ulids.ulid_str run_id;
      registered_at_ms = now_ms;
    }
    bytes ← encode entry
    ok (st.put_bytes (worker_key worker) bytes c, events ++ worker_registered worker ∷ [])

  unfoldable pub deregister : WorkerId → st.Contents × List Event → st.Contents × List Event
  deregister worker (c, events) = (
    st.delete (heartbeat_key worker) (st.delete (worker_key worker) c),
    events ++ worker_deregistered worker ∷ [],
  )

  -- The registration comes first where the worker is unknown.
  abbrev pub known_or_register :
      RunId
      → WorkerId
      → ℕ
      → Option Bytes
      → st.Contents × List Event
      → Result (st.Contents × List Event)
  known_or_register run_id worker now_ms none s = register run_id worker now_ms s
  known_or_register run_id worker now_ms (some bytes) s = ok s

  abbrev pub beat : Heartbeat → ℕ → HeartbeatRecord
  beat hb now_ms = record {
    worker_id = ulids.ulid_str hb.worker_id;
    run_id = ulids.ulid_str hb.run_id;
    state = state_to_i32 hb.state;
    due_at_ms = hb.due_at;
    received_at_ms = now_ms;
  }

  unfoldable pub heartbeat :
      RunId → Heartbeat → ℕ → st.Contents × List Event → Result (st.Contents × List Event)
  unfolding register
  heartbeat run_id hb now_ms s = do
    s₁ ← known_or_register run_id hb.worker_id now_ms (st.get_bytes (worker_key hb.worker_id) s.0) s
    bytes ← encode (beat hb now_ms)
    ok (
      st.put_bytes (heartbeat_key hb.worker_id) bytes s₁.0,
      s₁.1 ++ worker_heartbeat hb.worker_id ∷ [],
    )

abbrev pub heartbeats : StorageKey
heartbeats = record { namespace = codes "heartbeats"; run_id = none; path = [] }

-- `already_failed.contains(..)`
abbrev pub listed : Bytes → List Bytes → Bool
listed id [] = false
listed id (x ∷ xs) = bytes_eq x id || listed id xs

-- The set of workers reported so far, and the records reported by this scan, the first one first.
abbrev pub Scan : Type 0
Scan = List Bytes × List HeartbeatRecord

-- `is_failed(..) && already_failed.insert(..)`
abbrev pub scan_record : ℕ → ℕ → ℕ → HeartbeatRecord → Scan → Scan
scan_record now skew coord_timeout rec s =
    if is_failed now (ms_to_systime rec.due_at_ms) skew coord_timeout
      && not (listed rec.worker_id s.0)
    then (s.0 ++ rec.worker_id ∷ [], s.1 ++ rec ∷ [])
    else s

module _ ⦃beats : Codec HeartbeatRecord⦄ where
  -- A row that does not decode is passed over.
  abbrev pub scan_row : ℕ → ℕ → ℕ → Option HeartbeatRecord → Scan → Scan
  scan_row now skew coord_timeout none s = s
  scan_row now skew coord_timeout (some rec) s = scan_record now skew coord_timeout rec s

  unfoldable pub scan_rows : ℕ → ℕ → ℕ → List (StorageKey × Bytes) → Scan → Scan
  unfolding is_failed ms_to_systime
  scan_rows now skew coord_timeout [] s = s
  scan_rows now skew coord_timeout ((key, bytes) ∷ rows) s =
      scan_rows now skew coord_timeout rows
        (scan_row now skew coord_timeout (beats.from_bytes bytes) s)

module _ ⦃st : Storage⦄ ⦃beats : Codec HeartbeatRecord⦄ where
  unfoldable pub scan_once : ℕ → ℕ → ℕ → List Bytes → st.Contents → Scan
  unfolding scan_rows
  scan_once now skew coord_timeout already_failed c =
      scan_rows now skew coord_timeout (st.scan_bytes heartbeats c) (already_failed, [])
