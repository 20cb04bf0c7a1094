-- ===== src/Coordinator/Lease/Epochs.antt =====
-- Any number of coordinators that acquire and renew the lease of a run, interleaved in any order.
use rollout.Prelude.{
  ℕ, zero, suc, ◌+◌, ◌≡◌, ◌≤◌, Bool, List, [], ◌∷◌, Option, some, none, arith, ◌∙◌, length,
}
use rollout.Core.Ids.{RunId, WorkerId}
use rollout.Core.Errors.{ok}
use rollout.Store.{Storage, Codec}
use rollout.Coordinator.Lease.{LeaseRecord, lease_key, epoch_key, try_acquire, renew, u64_mod}
use rollout.Coordinator.Lease.Claim.{LeaseIs, EpochIs}

-- The nth grant, counted from the first one.
abbrev pub Numbered : List LeaseRecord → Type 0
Numbered [] = Unit
Numbered (g ∷ gs) = (g.epoch ≡ length gs) × Numbered gs

abbrev pub nth : List LeaseRecord → ℕ → Option LeaseRecord
nth [] i = none
nth (g ∷ gs) zero = some g
nth (g ∷ gs) (suc i) = nth gs i

pub Numbered-nth :
    (gs : List LeaseRecord) (i : ℕ) (g : LeaseRecord)
    → Numbered gs
    → nth gs i ≡ some g
    → g.epoch + suc i ≡ length gs
Numbered-nth [] i g h e = cc
Numbered-nth (x ∷ gs) zero g h e = let same : x ≡ g = cc in omega (arith, h.0, ap_epoch same)
  where
    ap_epoch : x ≡ g → x.epoch ≡ g.epoch
    ap_epoch q = cc
Numbered-nth (x ∷ gs) (suc i) g h e = omega (arith, Numbered-nth gs i g h.1 e)

module _ ⦃st : Storage⦄ ⦃leases : Codec LeaseRecord⦄ ⦃epochs : Codec ℕ⦄ where
  -- The store, and every record that an acquire has returned, the latest first.
  pub record World : Type 0 where
    pub contents : st.Contents
    pub granted : List LeaseRecord

  -- One call of a coordinator that returned, or a write of anything but the two rows of the lease.
  -- An acquire may have read the row at any earlier time: `read` is any contents.
  pub data Step (run_id : RunId) (w : World) : World → Type 0 where
    grant :
        (me : WorkerId) (ttl_ms now : ℕ) (read c' : st.Contents) (g : LeaseRecord)
        → try_acquire run_id me ttl_ms now read w.contents ≡ ok (some g, c')
        → Step run_id w (record { contents = c'; granted = g ∷ w.granted })
    refuse :
        (me : WorkerId) (ttl_ms now : ℕ) (read c' : st.Contents)
        → try_acquire run_id me ttl_ms now read w.contents ≡ ok (none, c')
        → Step run_id w (record { contents = c'; granted = w.granted })
    renewal :
        (held : LeaseRecord) (ttl_ms now : ℕ) (c' : st.Contents) (won : Bool)
        → renew run_id held ttl_ms now w.contents ≡ ok (won, c')
        → Step run_id w (record { contents = c'; granted = w.granted })
    other :
        (c' : st.Contents)
        → st.get_bytes (lease_key run_id) c' ≡ st.get_bytes (lease_key run_id) w.contents
        → st.get_bytes (epoch_key run_id) c' ≡ st.get_bytes (epoch_key run_id) w.contents
        → Step run_id w (record { contents = c'; granted = w.granted })

  -- From any store without a lease row.
  pub data Reach (run_id : RunId) : World → Type 0 where
    start :
        (c : st.Contents)
        → st.get_bytes (lease_key run_id) c ≡ none
        → Reach run_id (record { contents = c; granted = [] })
    later : {w w' : World} → Reach run_id w → Step run_id w w' → Reach run_id w'

  -- What the rows say of the latest grant.
  abbrev pub Rows : RunId → List LeaseRecord → st.Contents → Type 0
  Rows run_id [] c = st.get_bytes (lease_key run_id) c ≡ none
  Rows run_id (g ∷ gs) c =
      (rec : LeaseRecord) × (rec.epoch ≡ g.epoch)
      × (rec.holder ≡ g.holder)
      × LeaseIs run_id rec c
      × EpochIs run_id rec.epoch c

  pub record Inv (run_id : RunId) (w : World) : Type 0 where
    pub rows : Rows run_id w.granted w.contents
    pub numbered : length w.granted ≤ u64_mod → Numbered w.granted

  pub Rows-unchanged :
      (run_id : RunId) (gs : List LeaseRecord) {c c' : st.Contents}
      → st.get_bytes (lease_key run_id) c' ≡ st.get_bytes (lease_key run_id) c
      → st.get_bytes (epoch_key run_id) c' ≡ st.get_bytes (epoch_key run_id) c
      → Rows run_id gs c
      → Rows run_id gs c'
  Rows-unchanged run_id [] e e' r = e ∙ r
  Rows-unchanged run_id (g ∷ gs) e e' (rec, n, h, l, p) = (
    rec,
    n,
    h,
    record { bytes = l.bytes; encoded = l.encoded; stored = e ∙ l.stored },
    record { bytes = p.bytes; encoded = p.encoded; stored = e' ∙ p.stored },
  )
