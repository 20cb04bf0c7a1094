-- ===== src/Coordinator/Drain.antt =====
-- crates/rollout-coordinator/src/drain.rs: the drain of a worker that is about to be reclaimed.
-- The time that each awaited call takes is an argument. The timeout cuts the sequence at the call
-- that is still open when the deadline has passed; what was done before stays done, and the call that
-- is cut, like one that fails, may have taken effect already.
pub mod Steps
pub mod Order
use rollout.Prelude.{
  ℕ, ◌+◌, ◌*◌, leb, Bool, true, false, List, [], ◌∷◌, ◌++◌, Option, none, some, if◌then◌else◌,
}
use rollout.Core.Errors.{Result, ok, err, CoreError, fatal, internal}

-- Milliseconds.
pub record DrainConfig : Type 0 where
  pub notice_lead : ℕ
  pub drain_deadline : ℕ

-- `Duration::from_secs`
abbrev pub from_secs : ℕ → ℕ
from_secs s = s * 1000

abbrev pub aws : DrainConfig
aws = record { notice_lead = from_secs 120; drain_deadline = from_secs 60 }

abbrev pub gcp : DrainConfig
gcp = record { notice_lead = from_secs 30; drain_deadline = from_secs 15 }

pub data SnapshotKind : Type 0 where
  train_state : SnapshotKind
  buffer : SnapshotKind
  process : SnapshotKind
  episodic_memory : SnapshotKind

-- `snapshotter` is the answer that it would give to `save`, where there is one.
pub record SnapshotPlan : Type 0 where
  pub snapshotter : Option (Result {0} Unit)
  pub remaining_budget : ℕ
  pub snapshot_cost : ℕ

-- The queue of the trait, of which a drain calls `nack` only: what it answers, and what it leaves; and
-- what it leaves where it is cut.
pub record Requeue : Type 1 where
  pub Items : Type 0
  pub nack : ℕ → Items → Result {0} Unit × Items
  pub cut_nack : ℕ → Items → Items

-- The time of each call, what the call to leave the registry answers, and whether the worker has left
-- the registry where that call fails or is cut: it may, as the rows are deleted before the event.
pub record Timing : Type 0 where
  pub nack_ms : ℕ → ℕ
  pub save_ms : ℕ
  pub deregister_ms : ℕ
  pub deregister : Result {0} Unit
  pub left_anyway : Bool

-- What the drain has done so far, and the time since its deadline began to run. `saved` has the kinds
-- of the snapshots that it has asked for.
pub record Vacating ⦃q : Requeue⦄ : Type 0 where
  pub elapsed : ℕ
  pub stop_pull : Bool
  pub items : q.Items
  pub nacked : List ℕ
  pub saved : List SnapshotKind
  pub deregistered : Bool

module _ ⦃q : Requeue⦄ where
  -- The state is kept on an error.
  pub data Flow : Type 0 where
    go_on : Vacating → Flow
    broken : CoreError → Vacating → Flow

  infixl 5 ◌>>>◌
  abbrev pub ◌>>>◌ : Flow → (Vacating → Flow) → Flow
  go_on v >>> f = f v
  broken e v >>> f = broken e v

  abbrev pub exceeded : CoreError
  exceeded = fatal (internal "spot drain exceeded drain_deadline")

  -- A call that takes `ms`: with what it makes of the state if it is over in time, and if it is cut.
  unfoldable pub await :
      DrainConfig → ℕ → (Vacating → Vacating) → (Vacating → Flow) → Vacating → Flow
  await cfg ms cut f v =
      if leb (v.elapsed + ms) cfg.drain_deadline
      then f (record v { elapsed = v.elapsed + ms })
      else broken exceeded (cut v)

  abbrev pub nack_cut : ℕ → Vacating → Vacating
  nack_cut id v = record v { items = q.cut_nack id v.items }

  abbrev pub nacked_with : ℕ → Result {0} Unit × q.Items → Vacating → Flow
  nacked_with id (ok r, items) v = go_on (record v { items = items; nacked = v.nacked ++ id ∷ [] })
  nacked_with id (err e, items) v = broken e (record v { items = items })

  unfoldable pub nack_all : DrainConfig → Timing → List ℕ → Vacating → Flow
  unfolding await
  nack_all cfg t [] v = go_on v
  nack_all cfg t (id ∷ in_flight) v =
      await cfg (t.nack_ms id) (nack_cut id) (λ w. nacked_with id (q.nack id w.items) w) v
      >>> nack_all cfg t in_flight

  abbrev pub save_asked : Vacating → Vacating
  save_asked v = record v { saved = train_state ∷ v.saved }

  abbrev pub saved_with : Result {0} Unit → Vacating → Flow
  saved_with (ok r) v = go_on (save_asked v)
  saved_with (err e) v = broken e (save_asked v)

  unfoldable pub snapshot :
      DrainConfig → Timing → SnapshotPlan → Option (Result {0} Unit) → Vacating → Flow
  unfolding await
  snapshot cfg t snap none v = go_on v
  snapshot cfg t snap (some answer) v =
      if leb snap.snapshot_cost snap.remaining_budget
      then await cfg t.save_ms save_asked (saved_with answer) v
      else go_on v

  abbrev pub perhaps_left : Timing → Vacating → Vacating
  perhaps_left t v = record v { deregistered = t.left_anyway }

  abbrev pub deregistered_with : Timing → Result {0} Unit → Vacating → Flow
  deregistered_with t (ok r) v = go_on (record v { deregistered = true })
  deregistered_with t (err e) v = broken e (perhaps_left t v)

  -- What the timeout runs over.
  unfoldable pub vacate : DrainConfig → Timing → List ℕ → SnapshotPlan → Vacating → Flow
  unfolding await nack_all snapshot
  vacate cfg t in_flight snap v =
      nack_all cfg t in_flight (record v { stop_pull = true })
      >>> snapshot cfg t snap snap.snapshotter
      >>> await cfg t.deregister_ms (perhaps_left t) (deregistered_with t t.deregister)

  -- `hint` is the answer of `preemption_signal`, of which only an error matters.
  unfoldable pub drain :
      Result (Option ℕ) → List ℕ → SnapshotPlan → DrainConfig → Timing → q.Items → Bool → Flow
  unfolding vacate
  drain (err e) in_flight snap cfg t items stop_pull = broken e (record {
    elapsed = 0;
    stop_pull = stop_pull;
    items = items;
    nacked = [];
    saved = [];
    deregistered = false;
  })
  drain (ok observed_lead) in_flight snap cfg t items stop_pull =
      vacate cfg t in_flight snap (record {
        elapsed = 0;
        stop_pull = stop_pull;
        items = items;
        nacked = [];
        saved = [];
        deregistered = false;
      })
