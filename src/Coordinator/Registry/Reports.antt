-- ===== src/Coordinator/Registry/Reports.antt =====
-- Which failures a scan reports.
use rollout.Prelude.{
  ℕ, ◌≡◌, refl, Bool, true, false, ◌||◌, List, [], ◌∷◌, ◌++◌, Option, none, some, arith, Bool-cases,
  inl, inr, Member, All, bytes_eq_refl, bytes_eq→eq, ap, ◌∙◌, subst, sym,
}
use rollout.Core.Ids.{Bytes}
use rollout.Core.Keys.{StorageKey}
use rollout.Store.{Storage, Codec}
use rollout.Coordinator.Registry.{
  HeartbeatRecord, is_failed, ms_to_systime, listed, Scan, scan_record, scan_row, scan_rows,
  scan_once, heartbeats,
}

abbrev pub NoRepeat : List Bytes → Type 0
NoRepeat [] = Unit
NoRepeat (x ∷ xs) = (listed x xs ≡ false) × NoRepeat xs

abbrev pub ids : List HeartbeatRecord → List Bytes
ids [] = []
ids (rec ∷ recs) = rec.worker_id ∷ ids recs

abbrev pub overdue : ℕ → ℕ → ℕ → HeartbeatRecord → Bool
overdue now skew coord_timeout rec = is_failed now (ms_to_systime rec.due_at_ms) skew coord_timeout

listed-append :
    (x : Bytes) (xs ys : List Bytes) → listed x (xs ++ ys) ≡ (listed x xs || listed x ys)
listed-append x [] ys = refl
listed-append x (z ∷ xs) ys = ground (arith, listed-append x xs ys)

NoRepeat-snoc :
    (xs : List Bytes) (y : Bytes) → NoRepeat xs → listed y xs ≡ false → NoRepeat (xs ++ y ∷ [])
NoRepeat-snoc [] y n h = (refl, tt)
NoRepeat-snoc (x ∷ xs) y n h = (
  ground (arith, listed-append x xs (y ∷ []), n.0, bytes_eq→eq y x, bytes_eq_refl x),
  NoRepeat-snoc xs y n.1 (ground arith),
)

ids-snoc :
    (recs : List HeartbeatRecord) (rec : HeartbeatRecord)
    → ids (recs ++ rec ∷ []) ≡ ids recs ++ rec.worker_id ∷ []
ids-snoc [] rec = refl
ids-snoc (r ∷ recs) rec = ap (◌∷◌ r.worker_id) (ids-snoc recs rec)

append-[] : (xs : List Bytes) → xs ≡ xs ++ []
append-[] [] = refl
append-[] (x ∷ xs) = ap (◌∷◌ x) (append-[] xs)

append-snoc : (xs ys : List Bytes) (z : Bytes) → (xs ++ ys) ++ z ∷ [] ≡ xs ++ (ys ++ z ∷ [])
append-snoc [] ys z = refl
append-snoc (x ∷ xs) ys z = ap (◌∷◌ x) (append-snoc xs ys z)

All-snoc {ℓ κ} :
    {A : Type ℓ} (P : A → Type κ) (xs : List A) (y : A) → All P xs → P y → All P (xs ++ y ∷ [])
All-snoc P [] y h k = (k, tt)
All-snoc P (x ∷ xs) y h k = (h.0, All-snoc P xs y h.1 k)

-- The set is what had been reported before and what this scan reports, each worker once, and what it
-- reports is overdue.
record Tracked (now skew coord_timeout : ℕ) (already : List Bytes) (s : Scan) : Type 0 where
  adds : s.0 ≡ already ++ ids s.1
  once : NoRepeat s.0
  sound : All (λ rec. overdue now skew coord_timeout rec ≡ true) s.1

scan_record-Tracked :
    (now skew coord_timeout : ℕ) (already : List Bytes) (rec : HeartbeatRecord) (s : Scan)
    → Tracked now skew coord_timeout already s
    → Tracked now skew coord_timeout already (scan_record now skew coord_timeout rec s)
      × (overdue now skew coord_timeout rec ≡ true
          → listed rec.worker_id (scan_record now skew coord_timeout rec s).0 ≡ true)
      × ((id : Bytes)
          → listed id s.0 ≡ true
          → listed id (scan_record now skew coord_timeout rec s).0 ≡ true)
scan_record-Tracked now skew coord_timeout already rec s t =
    elim (Bool-cases (overdue now skew coord_timeout rec)) [
      | inr q ↦ rw (q, scan_record) (t, (λ e. absurd (cc)), λ id h. h)
      | inl q ↦ elim (Bool-cases (listed rec.worker_id s.0)) [
        | inl known ↦ rw (q, known, scan_record) (t, (λ e. known), λ id h. h)
        | inr fresh ↦
            rw (q, fresh, scan_record)
              (
                record {
                  adds =
                      ap (λ xs. xs ++ rec.worker_id ∷ []) t.adds
                      ∙ append-snoc already (ids s.1) rec.worker_id
                      ∙ ap (λ ys. already ++ ys) (sym (ids-snoc s.1 rec));
                  once = NoRepeat-snoc s.0 rec.worker_id t.once fresh;
                  sound = All-snoc (λ r. overdue now skew coord_timeout r ≡ true) s.1 rec t.sound q;
                },
                (λ e. ground (
                  arith,
                  listed-append rec.worker_id s.0 (rec.worker_id ∷ []),
                  bytes_eq_refl rec.worker_id,
                )),
                λ id h. ground (arith, listed-append id s.0 (rec.worker_id ∷ []), h),
              )
      ]
    ]

module _ ⦃beats : Codec HeartbeatRecord⦄ where
  scan_row-Tracked :
      (now skew coord_timeout : ℕ) (already : List Bytes) (o : Option HeartbeatRecord) (s : Scan)
      → Tracked now skew coord_timeout already s
      → Tracked now skew coord_timeout already (scan_row now skew coord_timeout o s)
        × ((rec : HeartbeatRecord)
            → o ≡ some rec
            → overdue now skew coord_timeout rec ≡ true
            → listed rec.worker_id (scan_row now skew coord_timeout o s).0 ≡ true)
        × ((id : Bytes)
            → listed id s.0 ≡ true
            → listed id (scan_row now skew coord_timeout o s).0 ≡ true)
  scan_row-Tracked now skew coord_timeout already none s t =
      (t, (λ rec e q. absurd (cc)), λ id h. h)
  scan_row-Tracked now skew coord_timeout already (some r) s t =
      let (t', here, keeps) = scan_record-Tracked now skew coord_timeout already r s t in
      (
        t',
        (λ rec e q.
            let same : r ≡ rec = cc in
            subst
              (λ (x : HeartbeatRecord).
                overdue now skew coord_timeout x ≡ true
                → listed x.worker_id (scan_record now skew coord_timeout r s).0 ≡ true)
              same here q),
        keeps,
      )

  -- Every overdue record of the rows is of a worker that has been reported.
  abbrev pub Reported : ℕ → ℕ → ℕ → List (StorageKey × Bytes) → List Bytes → Type 0
  Reported now skew coord_timeout rows set =
      (row : StorageKey × Bytes) (rec : HeartbeatRecord)
      → Member row rows
      → beats.from_bytes row.1 ≡ some rec
      → overdue now skew coord_timeout rec ≡ true
      → listed rec.worker_id set ≡ true

  scan_rows-Tracked :
      (now skew coord_timeout : ℕ) (already : List Bytes) (rows : List (StorageKey × Bytes))
      (s : Scan)
      → Tracked now skew coord_timeout already s
      → Tracked now skew coord_timeout already (scan_rows now skew coord_timeout rows s)
        × Reported now skew coord_timeout rows (scan_rows now skew coord_timeout rows s).0
        × ((id : Bytes)
            → listed id s.0 ≡ true
            → listed id (scan_rows now skew coord_timeout rows s).0 ≡ true)
  unfolding scan_rows
  scan_rows-Tracked now skew coord_timeout already [] s t =
      (t, (λ row rec m e q. absurd m), λ id h. h)
  scan_rows-Tracked now skew coord_timeout already ((key, bytes) ∷ rows) s t =
      let (t₁, here, keeps) =
        scan_row-Tracked now skew coord_timeout already (beats.from_bytes bytes) s t in
      let (t₂, there, keeps₂) =
        scan_rows-Tracked now skew coord_timeout already rows
          (scan_row now skew coord_timeout (beats.from_bytes bytes) s) t₁ in
      (
        t₂,
        (λ row rec m e q. elim m [
          | inl same ↦
              keeps₂ rec.worker_id
                (here rec (ap (λ (r : StorageKey × Bytes). beats.from_bytes r.1) (sym same) ∙ e) q)
          | inr m' ↦ there row rec m' e q
        ]),
        λ id h. keeps₂ id (keeps id h),
      )

module _ ⦃st : Storage⦄ ⦃beats : Codec HeartbeatRecord⦄ where
  -- A scan reports only records that are overdue by more than both budgets; it adds the workers that it
  -- reports to those reported before, so no worker is ever reported twice; and afterwards every worker
  -- with an overdue record has been reported, by this scan or an earlier one.
  pub scan_once-Reported :
      (now skew coord_timeout : ℕ) (already : List Bytes) (c : st.Contents)
      → NoRepeat already
      → All
          (λ rec. overdue now skew coord_timeout rec ≡ true)
          (scan_once now skew coord_timeout already c).1
        × ((scan_once now skew coord_timeout already c).0
            ≡ already ++ ids (scan_once now skew coord_timeout already c).1)
        × NoRepeat (scan_once now skew coord_timeout already c).0
        × Reported now skew coord_timeout
            (st.scan_bytes heartbeats c)
            (scan_once now skew coord_timeout already c).0
  unfolding scan_once
  scan_once-Reported now skew coord_timeout already c n =
      let (t, reported, keeps) =
        scan_rows-Tracked now skew coord_timeout already (st.scan_bytes heartbeats c) (already, [])
          (record { adds = append-[] already; once = n; sound = tt }) in
      (t.sound, t.adds, t.once, reported)
