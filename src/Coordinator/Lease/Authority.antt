-- ===== src/Coordinator/Lease/Authority.antt =====
-- What holds of the lease after any interleaving of coordinators.
use rollout.Prelude.{
  ℕ, suc, ◌+◌, ◌%◌, ◌≡◌, ◌≢◌, ◌≤◌, refl, Bool, true, false, List, [], ◌∷◌, some, none, arith, subst,
  sym, ◌∙◌, length, ap,
}
use rollout.Core.Ids.{RunId, WorkerId}
use rollout.Core.Errors.{ok}
use rollout.Store.{Storage, Codec, decode-encode}
use rollout.Coordinator.Lease.{LeaseRecord, fresh, stolen, extended, renew, current, u64_mod}
use rollout.Coordinator.Epoch.{current_epoch}
use rollout.Coordinator.Lease.Claim.{LeaseIs, EpochIs, LeaseIs-unique}
use rollout.Coordinator.Lease.Exclusion.{
  Outcome, first, steal, refused, LeaseIs-decode, try_acquire-Outcome, renew-Claimed, renew-won,
  deposed_renew_fails,
}
use rollout.Coordinator.Lease.Epochs.{
  Numbered, nth, Numbered-nth, World, Step, grant, refuse, renewal, other, Reach, start, later,
  Rows, Inv, Rows-unchanged,
}

module _ ⦃st : Storage⦄ ⦃leases : Codec LeaseRecord⦄ ⦃epochs : Codec ℕ⦄ where
  grant-Inv :
      (run_id : RunId) (me : WorkerId) (ttl_ms now : ℕ) (c c' : st.Contents) (g : LeaseRecord)
      (gs : List LeaseRecord)
      → Inv run_id (record { contents = c; granted = gs })
      → Outcome run_id me ttl_ms now c (some g) c'
      → Inv run_id (record { contents = c'; granted = g ∷ gs })
  grant-Inv run_id me ttl_ms now c c' g [] inv (first e r cl) = record {
    rows = (fresh me now ttl_ms, cc, cc, cl.lease refl, cl.epoch refl);
    numbered = λ h. (cc, tt);
  }
  grant-Inv run_id me ttl_ms now c c' g (x ∷ gs) inv (first e r cl) =
      let (rec, n, h, l, p) = inv.rows in absurd (cc (l.stored, e))
  grant-Inv run_id me ttl_ms now c c' g [] inv (steal prior cur e d late r cl) =
      absurd (cc (inv.rows, e))
  grant-Inv run_id me ttl_ms now c c' g (x ∷ gs) inv (steal prior cur e d late r cl) =
      let (rec, n, h, l, p) = inv.rows in
      let same : cur ≡ rec = LeaseIs-decode l e d in
      let taken : g ≡ stolen cur me now ttl_ms = cc in
      record {
        rows = (stolen cur me now ttl_ms, cc, cc, cl.lease refl, cl.epoch refl);
        numbered = λ room.
            let old = inv.numbered (omega arith) in
            let now_epoch : g.epoch ≡ (x.epoch + 1) % u64_mod = cc in
            (omega (arith, now_epoch, old.0, room), old);
      }
  grant-Inv run_id me ttl_ms now c c' g gs inv (refused r u) = absurd (cc)

  renewal-Inv :
      (run_id : RunId) (held : LeaseRecord) (ttl_ms now : ℕ) (c c' : st.Contents) (won : Bool)
      (gs : List LeaseRecord)
      → Inv run_id (record { contents = c; granted = gs })
      → renew run_id held ttl_ms now c ≡ ok (won, c')
      → Inv run_id (record { contents = c'; granted = gs })
  renewal-Inv run_id held ttl_ms now c c' false gs inv h =
      let (b, e, cl) = renew-Claimed run_id held ttl_ms now c h in
      subst (λ x. Inv run_id (record { contents = x; granted = gs })) (sym (cl.unchanged refl)) inv
  renewal-Inv run_id held ttl_ms now c c' true [] inv h =
      absurd (cc (inv.rows, (renew-won run_id held ttl_ms now c h).stored))
  renewal-Inv run_id held ttl_ms now c c' true (x ∷ gs) inv h =
      let (rec, n, o, l, p) = inv.rows in
      let (b, e, cl) = renew-Claimed run_id held ttl_ms now c h in
      let same : held ≡ rec = LeaseIs-unique (renew-won run_id held ttl_ms now c h) l in
      record {
        rows = (extended held now ttl_ms, cc, cc, cl.lease refl, cl.epoch refl);
        numbered = inv.numbered;
      }

  refuse-contents :
      (run_id : RunId) (me : WorkerId) (ttl_ms now : ℕ) (c c' : st.Contents)
      → Outcome run_id me ttl_ms now c none c'
      → c' ≡ c
  refuse-contents run_id me ttl_ms now c c' (first e r cl) = absurd (cc)
  refuse-contents run_id me ttl_ms now c c' (steal prior cur e d late r cl) = absurd (cc)
  refuse-contents run_id me ttl_ms now c c' (refused r u) = u

  Step-Inv : {run_id : RunId} {w w' : World} → Step run_id w w' → Inv run_id w → Inv run_id w'
  Step-Inv {run_id} {w} (grant me ttl_ms now read c' g h) inv =
      grant-Inv run_id me ttl_ms now w.contents c' g w.granted inv
        (try_acquire-Outcome run_id me ttl_ms now read w.contents h)
  Step-Inv {run_id} {w} (refuse me ttl_ms now read c' h) inv =
      subst (λ x. Inv run_id (record { contents = x; granted = w.granted }))
        (sym (
          refuse-contents run_id me ttl_ms now w.contents c'
            (try_acquire-Outcome run_id me ttl_ms now read w.contents h)))
        inv
  Step-Inv {run_id} {w} (renewal held ttl_ms now c' won h) inv =
      renewal-Inv run_id held ttl_ms now w.contents c' won w.granted inv h
  Step-Inv {run_id} {w} (other c' e e') inv = record {
    rows = Rows-unchanged run_id w.granted e e' inv.rows;
    numbered = inv.numbered;
  }

  Reach-Inv : {run_id : RunId} {w : World} → Reach run_id w → Inv run_id w
  Reach-Inv (start c e) = record { rows = e; numbered = λ h. tt }
  Reach-Inv (later r s) = Step-Inv s (Reach-Inv r)

  -- No two coordinators are ever granted the same epoch: in any interleaving, two grants with equal
  -- epochs are the same grant, as long as there have been at most 2^64 of them.
  pub one_grant_per_epoch :
      (run_id : RunId) (w : World) (i j : ℕ) (a b : LeaseRecord)
      → Reach run_id w
      → length w.granted ≤ u64_mod
      → nth w.granted i ≡ some a
      → nth w.granted j ≡ some b
      → a.epoch ≡ b.epoch
      → i ≡ j
  one_grant_per_epoch run_id w i j a b r room ha hb e =
      let n = (Reach-Inv r).numbered room in
      omega (arith, Numbered-nth w.granted i a n ha, Numbered-nth w.granted j b n hb, e)

  pub current-LeaseIs :
      {run_id : RunId} {rec : LeaseRecord} {c : st.Contents}
      → LeaseIs run_id rec c
      → current run_id c ≡ ok (some rec)
  unfolding current
  current-LeaseIs {rec} l = rw (l.stored, current, decode-encode rec l.encoded)

  pub current_epoch-EpochIs :
      {run_id : RunId} {epoch : ℕ} {c : st.Contents}
      → EpochIs run_id epoch c
      → current_epoch run_id c ≡ ok epoch
  unfolding current_epoch
  current_epoch-EpochIs {epoch} p = rw (p.stored, current_epoch, decode-encode epoch p.encoded)

  -- The two rows of the lease agree, and show the latest grant: its holder and its epoch are what
  -- `current` reads, and the epoch is what `current_epoch` reads.
  pub rows_agree :
      (run_id : RunId) (w : World) (g : LeaseRecord) (gs : List LeaseRecord)
      → Reach run_id w
      → w.granted ≡ g ∷ gs
      → (rec : LeaseRecord) × (current run_id w.contents ≡ ok (some rec))
        × (rec.holder ≡ g.holder)
        × (rec.epoch ≡ g.epoch)
        × (current_epoch run_id w.contents ≡ ok g.epoch)
  rows_agree run_id w g gs r e =
      let (rec, n, o, l, p) = subst (λ x. Rows run_id x w.contents) e (Reach-Inv r).rows in
      (rec, current-LeaseIs l, o, n, current_epoch-EpochIs p ∙ ap ok n)

  older-ne :
      (run_id : RunId) (gs : List LeaseRecord) (c : st.Contents) (i : ℕ) (a held : LeaseRecord)
      → Rows run_id gs c
      → Numbered gs
      → nth gs (suc i) ≡ some a
      → held.epoch ≡ a.epoch
      → (rec : LeaseRecord) × LeaseIs run_id rec c × (held ≢ rec)
  older-ne run_id [] c i a held rows n ha e = cc
  older-ne run_id (x ∷ gs) c i a held (rec, ep, o, l, p) n ha e = (
    rec,
    l,
    λ same.
        omega
          (arith, ap (λ (y : LeaseRecord). y.epoch) same, ep, n.0, e, Numbered-nth gs i a n.1 ha),
  )

  -- A coordinator whose grant is not the latest one can neither renew with it nor with any renewal
  -- of it: no record with its epoch renews, and the attempt writes nothing.
  pub deposed_is_fenced :
      (run_id : RunId) (w : World) (i : ℕ) (a held : LeaseRecord) (ttl_ms now : ℕ) {won : Bool}
      {c' : st.Contents}
      → Reach run_id w
      → length w.granted ≤ u64_mod
      → nth w.granted (suc i) ≡ some a
      → held.epoch ≡ a.epoch
      → renew run_id held ttl_ms now w.contents ≡ ok (won, c')
      → (won ≡ false) × (c' ≡ w.contents)
  deposed_is_fenced run_id w i a held ttl_ms now r room ha e h =
      let inv = Reach-Inv r in
      let (rec, l, ne) =
        older-ne run_id w.granted w.contents i a held inv.rows (inv.numbered room) ha e in
      deposed_renew_fails run_id rec held ttl_ms now w.contents l ne h
