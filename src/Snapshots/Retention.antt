-- ===== src/Snapshots/Retention.antt =====
-- Which snapshots a prune keeps.
use rollout.Prelude.{
  ℕ, ◌+◌, ◌≡◌, refl, false, List, [], ◌∷◌, none, some, arith, if◌then◌else◌, Bool-cases, inl, inr,
  All, ◌∙◌, subst, ap,
}
use rollout.Prelude.Sort.{
  sort_by, sort_by-IsSortedBy, IsSortedBy, IsTotal, Pairwise, sort_by-Pairwise,
}
use rollout.Core.Ids.{Bytes}
use rollout.Core.Errors.{ok, >>=-eq-ok, ok-injective}
use rollout.Core.Keys.{StorageKey, key_eq, key_eq→eq, key_eq_refl}
use rollout.Store.{Storage, Codec, decode}
use rollout.Store.Rows.{find_row, IsDistinct}
use rollout.Snapshots.{
  Snapshot, RetentionPolicy, PrunePolicy, snapshot_prefix, newer_leb, kept, decode_rows, prune_from,
  apply_prune,
}

newer_leb-IsTotal : IsTotal newer_leb
newer_leb-IsTotal = record { total = λ a b h. ground arith; trans = λ a b c h k. ground arith }

-- Entries under different keys.
abbrev pub Apart : StorageKey × Snapshot → StorageKey × Snapshot → Type 0
Apart a b = (key_eq a.0 b.0 ≡ false) × (key_eq b.0 a.0 ≡ false)

key_eq-sym : (j k : StorageKey) → key_eq j k ≡ false → key_eq k j ≡ false
key_eq-sym j k h = elim (Bool-cases (key_eq k j)) [
  | inr e ↦ e
  | inl e ↦ let same : k ≡ j = key_eq→eq k j e in absurd (cc (h, key_eq_refl k, same))
]

module _ ⦃codec : Codec Snapshot⦄ where
  -- A key that a list of rows does not have is not among the decoded ones.
  absent-Apart :
      (k : StorageKey) (s : Snapshot) (rows : List (StorageKey × Bytes))
      (snaps : List (StorageKey × Snapshot))
      → find_row k rows ≡ none
      → decode_rows rows ≡ ok snaps
      → All (Apart (k, s)) snaps
  unfolding decode_rows
  absent-Apart k s [] snaps f h = subst (All (Apart (k, s))) (ok-injective [] snaps h) tt
  absent-Apart k s ((j, v) ∷ rows) snaps f h =
      let (snap, e, h₁) = >>=-eq-ok (decode v) _ h in
      let (rest, e₁, h₂) = >>=-eq-ok (decode_rows rows) _ h₁ in
      elim (Bool-cases (key_eq j k)) [
        | inl q ↦ let no : some v ≡ none = rw (q, find_row) at f in absurd (cc)
        | inr q ↦
            subst (All (Apart (k, s))) (ok-injective _ snaps h₂)
              ((key_eq-sym j k q, q), absent-Apart k s rows rest (rw (q, find_row) at f) e₁)
      ]

  decode_rows-Pairwise :
      (rows : List (StorageKey × Bytes)) (snaps : List (StorageKey × Snapshot))
      → IsDistinct rows
      → decode_rows rows ≡ ok snaps
      → Pairwise Apart snaps
  unfolding decode_rows
  decode_rows-Pairwise [] snaps d h = subst (Pairwise Apart) (ok-injective [] snaps h) tt
  decode_rows-Pairwise ((k, v) ∷ rows) snaps d h =
      let (snap, e, h₁) = >>=-eq-ok (decode v) _ h in
      let (rest, e₁, h₂) = >>=-eq-ok (decode_rows rows) _ h₁ in
      subst (Pairwise Apart) (ok-injective _ snaps h₂)
        (absent-Apart k snap rows rest d.0 e₁, decode_rows-Pairwise rows rest d.1 e₁)

module _ ⦃st : Storage⦄ where
  -- No entry of the list stands under the key.
  abbrev pub Unlisted : StorageKey → List (StorageKey × Snapshot) → Type 0
  Unlisted j snaps = All (λ (e : StorageKey × Snapshot). key_eq e.0 j ≡ false) snaps

  -- The row of each entry, by its place in the list: as it was where the policy keeps it, and gone
  -- where it does not.
  abbrev pub Verdicts :
      RetentionPolicy → ℕ → ℕ → List (StorageKey × Snapshot) → st.Contents → st.Contents → Type 0
  Verdicts policy now idx [] c c' = Unit
  Verdicts policy now idx ((key, snap) ∷ snaps) c c' =
      (st.get_bytes key c' ≡ (if kept policy now idx snap then st.get_bytes key c else none))
      × Verdicts policy now (idx + 1) snaps c c'

  abbrev pub count_gone : RetentionPolicy → ℕ → ℕ → List (StorageKey × Snapshot) → ℕ
  count_gone policy now idx [] = 0
  count_gone policy now idx ((key, snap) ∷ snaps) =
      if kept policy now idx snap
      then count_gone policy now (idx + 1) snaps
      else count_gone policy now (idx + 1) snaps + 1

  spared :
      (c : st.Contents) (key j : StorageKey)
      → key_eq key j ≡ false
      → st.get_bytes j (st.delete key c) ≡ st.get_bytes j c
  spared c key j e = ground (arith, st.get-delete j key c)

  gone : (c : st.Contents) (key : StorageKey) → st.get_bytes key (st.delete key c) ≡ none
  gone c key = ground (arith, st.get-delete key key c, key_eq_refl key)

  prune_from-frame :
      (policy : RetentionPolicy) (now idx : ℕ) (snaps : List (StorageKey × Snapshot))
      (c : st.Contents) (j : StorageKey)
      → Unlisted j snaps
      → st.get_bytes j (prune_from policy now idx snaps c).1 ≡ st.get_bytes j c
  unfolding prune_from
  prune_from-frame policy now idx [] c j h = refl
  prune_from-frame policy now idx ((key, snap) ∷ snaps) c j h =
      elim (Bool-cases (kept policy now idx snap)) [
        | inl e ↦ rw (e, prune_from) (prune_from-frame policy now (idx + 1) snaps c j h.1)
        | inr e ↦
            rw (e, prune_from)
              (prune_from-frame policy now (idx + 1) snaps (st.delete key c) j h.1
                ∙ spared c key j h.0)
      ]

  Apart-Unlisted :
      (key : StorageKey) (snap : Snapshot) (snaps : List (StorageKey × Snapshot))
      → All (Apart (key, snap)) snaps
      → Unlisted key snaps
  Apart-Unlisted key snap [] h = tt
  Apart-Unlisted key snap (e ∷ snaps) h = (h.0.1, Apart-Unlisted key snap snaps h.1)

  -- Verdicts on entries under other keys do not see that a row has been deleted before.
  Verdicts-delete :
      (policy : RetentionPolicy) (now idx : ℕ) (key : StorageKey) (snap : Snapshot)
      (snaps : List (StorageKey × Snapshot)) (c c' : st.Contents)
      → All (Apart (key, snap)) snaps
      → Verdicts policy now idx snaps (st.delete key c) c'
      → Verdicts policy now idx snaps c c'
  Verdicts-delete policy now idx key snap [] c c' h v = tt
  Verdicts-delete policy now idx key snap ((j, s) ∷ snaps) c c' h v = (
    v.0 ∙ ap (λ o. if kept policy now idx s then o else none) (spared c key j h.0.0),
    Verdicts-delete policy now (idx + 1) key snap snaps c c' h.1 v.1,
  )

  prune_from-Verdicts :
      (policy : RetentionPolicy) (now idx : ℕ) (snaps : List (StorageKey × Snapshot))
      (c : st.Contents)
      → Pairwise Apart snaps
      → Verdicts policy now idx snaps c (prune_from policy now idx snaps c).1
        × ((prune_from policy now idx snaps c).0 ≡ count_gone policy now idx snaps)
  unfolding prune_from
  prune_from-Verdicts policy now idx [] c p = (tt, refl)
  prune_from-Verdicts policy now idx ((key, snap) ∷ snaps) c p =
      let free : Unlisted key snaps = Apart-Unlisted key snap snaps p.0 in
      elim (Bool-cases (kept policy now idx snap)) [
        | inl e ↦
            let (v, n) = prune_from-Verdicts policy now (idx + 1) snaps c p.1 in
            rw (e, prune_from, Verdicts, count_gone)
              ((prune_from-frame policy now (idx + 1) snaps c key free, v), n)
        | inr e ↦
            let (v, n) = prune_from-Verdicts policy now (idx + 1) snaps (st.delete key c) p.1 in
            rw (e, prune_from, Verdicts, count_gone)
              (
                (
                  prune_from-frame policy now (idx + 1) snaps (st.delete key c) key free
                      ∙ gone c key,
                  Verdicts-delete policy now (idx + 1) key snap snaps c
                      (prune_from policy now (idx + 1) snaps (st.delete key c)).1 p.0 v,
                ),
                omega (arith, n),
              )
      ]

module _ ⦃st : Storage⦄ ⦃codec : Codec Snapshot⦄ where
  -- A prune that returns has gone through the snapshots of the run from the newest to the oldest. The
  -- row of each is as it was where the policy keeps it (it is among the last `keep_last`, or labeled
  -- where labels are kept, or younger than the age), and is gone otherwise; the count is that of the
  -- rows gone; and no other row has changed.
  pub apply_prune-Verdicts :
      (policy : PrunePolicy) (now : ℕ) (c : st.Contents) (n : ℕ) (c' : st.Contents)
      → apply_prune policy now c ≡ ok (n, c')
      → (snaps : List (StorageKey × Snapshot)) × (decode_rows
            (st.scan_bytes (snapshot_prefix policy.run_id) c)
          ≡ ok snaps)
        × IsSortedBy newer_leb (sort_by newer_leb snaps)
        × Verdicts policy.retention now 0 (sort_by newer_leb snaps) c c'
        × (n ≡ count_gone policy.retention now 0 (sort_by newer_leb snaps))
        × ((j : StorageKey)
            → Unlisted j (sort_by newer_leb snaps)
            → st.get_bytes j c' ≡ st.get_bytes j c)
  unfolding apply_prune
  apply_prune-Verdicts policy now c n c' h =
      let rows : List (StorageKey × Bytes) = st.scan_bytes (snapshot_prefix policy.run_id) c in
      let (snaps, e, h₁) = >>=-eq-ok (decode_rows rows) _ h in
      let sorted : List (StorageKey × Snapshot) = sort_by newer_leb snaps in
      let apart : Pairwise Apart sorted =
        sort_by-Pairwise newer_leb Apart (λ x y r. (r.1, r.0)) snaps
          (decode_rows-Pairwise rows snaps (st.scan-IsDistinct (snapshot_prefix policy.run_id) c)
            e) in
      let (v, k) = prune_from-Verdicts policy.retention now 0 sorted c apart in
      let same : prune_from policy.retention now 0 sorted c ≡ (n, c') = ok-injective _ _ h₁ in
      (
        snaps,
        e,
        sort_by-IsSortedBy newer_leb newer_leb-IsTotal snaps,
        subst (λ (p : ℕ × st.Contents). Verdicts policy.retention now 0 sorted c p.1) same v,
        subst (λ (p : ℕ × st.Contents). p.0 ≡ count_gone policy.retention now 0 sorted) same k,
        λ j u.
            subst (λ (p : ℕ × st.Contents). st.get_bytes j p.1 ≡ st.get_bytes j c) same
              (prune_from-frame policy.retention now 0 sorted c j u),
      )
