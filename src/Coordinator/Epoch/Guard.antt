-- ===== src/Coordinator/Epoch/Guard.antt =====
-- A worker that filters a whole sequence of responses through its guard.
use rollout.Prelude.{◌≡◌, ◌≤◌, ◌<◌, List, [], ◌∷◌, ltb, arith, Bool-cases, inl, inr, ltb→lt, ◌⊎◌}
use rollout.Core.Errors.{Result, ok, err}
use rollout.Coordinator.Lease.{CoordEpoch}
use rollout.Coordinator.Epoch.{EpochGuard, accept, stale}

-- A response that the guard let through is acted on.
abbrev pub collect :
    CoordEpoch → Result (Unit {0}) → List CoordEpoch × EpochGuard → List CoordEpoch × EpochGuard
collect e (ok _) (es, g) = (e ∷ es, g)
collect e (err _) rest = rest

-- The epochs that were accepted, in order, and the guard at the end.
unfoldable pub filter_epochs : EpochGuard → List CoordEpoch → List CoordEpoch × EpochGuard
filter_epochs g [] = ([], g)
filter_epochs g (e ∷ es) = collect e (accept g e).0 (filter_epochs (accept g e).1 es)

-- Each epoch is at least the one before it, and all are at least `low` and at most `high`.
abbrev pub Ascending : CoordEpoch → List CoordEpoch → CoordEpoch → Type 0
Ascending low [] high = low ≤ high
Ascending low (e ∷ es) high = (low ≤ e) × Ascending e es high

-- A guard accepts a response exactly where its epoch is not below the highest one seen, and then
-- remembers that epoch; a rejected response changes nothing.
pub accept-cases :
    (g : EpochGuard) (e : CoordEpoch)
    → ((g.seen_max ≤ e) × (accept g e ≡ (ok tt, record { seen_max = e })))
      ⊎ ((e < g.seen_max) × (accept g e ≡ (err stale, g)))
unfolding accept
accept-cases g e = elim (Bool-cases (ltb e g.seen_max)) [
  | inl low ↦ inr (ltb→lt _ _ low, rw low)
  | inr high ↦ inl (ground arith, ground arith)
]

-- What a worker acts on never goes back: the accepted epochs ascend from the guard's first maximum
-- to its last, whatever order the responses arrive in.
pub filter_epochs-Ascending :
    (es : List CoordEpoch) (g : EpochGuard)
    → Ascending g.seen_max (filter_epochs g es).0 (filter_epochs g es).1.seen_max
unfolding filter_epochs
filter_epochs-Ascending [] g = omega arith
filter_epochs-Ascending (e ∷ es) g = elim (accept-cases g e) [
  | inl (low, a) ↦ rw (a, Ascending) (low, filter_epochs-Ascending es (record { seen_max = e }))
  | inr (high, a) ↦ rw (a, Ascending) (filter_epochs-Ascending es g)
]
