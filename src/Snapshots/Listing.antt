-- ===== src/Snapshots/Listing.antt =====
-- What a listing of snapshots holds.
use rollout.Prelude.{
  ◌≡◌, refl, Bool, true, List, [], ◌∷◌, arith, All, Member, keep, if-elim, Bool-cases, inl, inr,
  subst,
}
use rollout.Prelude.Sort.{
  sort_by, sort_by-All, sort_by-Member, sort_by-IsSortedBy, IsSortedBy, IsTotal,
}
use rollout.Core.Ids.{Bytes}
use rollout.Core.Errors.{ok, >>=-eq-ok, ok-injective}
use rollout.Core.Keys.{StorageKey}
use rollout.Store.{Storage, Codec, decode}
use rollout.Snapshots.{Snapshot}
use rollout.Snapshots.Snapshotter.{
  SnapshotFilter, filter_prefix, of_kind, labeled, truncated, later_leb, decode_values, list,
}

later_leb-IsTotal : IsTotal later_leb
later_leb-IsTotal = record { total = λ a b h. ground arith; trans = λ a b c h k. ground arith }

keep-Member :
    {A : Type 0} (p : A → Bool) (z : A) (xs : List A)
    → p z ≡ true
    → Member z xs
    → Member z (keep p xs)
unfolding keep
keep-Member p z [] h m = m
keep-Member p z (x ∷ xs) h (inl e) = elim (Bool-cases (p x)) [
  | inl t ↦ rw t (inl e)
  | inr f ↦ absurd (cc (e, f, h))
]
keep-Member p z (x ∷ xs) h (inr m) =
    if-elim (Member z) (p x) (x ∷ keep p xs) (keep p xs) (λ t. inr (keep-Member p z xs h m))
      (λ f. keep-Member p z xs h m)

keep-both :
    {A : Type 0} (P : A → Type 0) (p : A → Bool) (xs : List A)
    → All P xs
    → All (λ x. P x × (p x ≡ true)) (keep p xs)
unfolding keep
keep-both P p [] h = tt
keep-both P p (x ∷ xs) h = elim (Bool-cases (p x)) [
  | inl t ↦ rw t ((h.0, t), keep-both P p xs h.1)
  | inr f ↦ rw f (keep-both P p xs h.1)
]

module _ ⦃st : Storage⦄ ⦃codec : Codec Snapshot⦄ where
  -- A row of the list holds the snapshot.
  abbrev pub InRows : List (StorageKey × Bytes) → Snapshot → Type 0
  InRows rows s = (row : StorageKey × Bytes) × Member row rows × (decode row.1 ≡ ok s)

  -- What was decoded are the snapshots of the rows.
  record Decoded (rows : List (StorageKey × Bytes)) (out : List Snapshot) : Type 0 where
    sound : All (InRows rows) out
    complete : (s : Snapshot) → InRows rows s → Member s out

  behind :
      (row : StorageKey × Bytes) (rows : List (StorageKey × Bytes)) (out : List Snapshot)
      → All (InRows rows) out
      → All (InRows (row ∷ rows)) out
  behind row rows [] h = tt
  behind row rows (s ∷ out) ((r, m, d), h) = ((r, inr m, d), behind row rows out h)

  decode_values-Decoded :
      (rows : List (StorageKey × Bytes)) (out : List Snapshot)
      → decode_values rows ≡ ok out
      → Decoded rows out
  unfolding decode_values
  decode_values-Decoded [] out h =
      subst (Decoded []) (ok-injective [] out h)
        (record { sound = tt; complete = λ s i. absurd i.1 })
  decode_values-Decoded ((key, bytes) ∷ rows) out h =
      let (snap, d, h₁) = >>=-eq-ok (decode bytes) _ h in
      let (snaps, e, h₂) = >>=-eq-ok (decode_values rows) _ h₁ in
      let rest = decode_values-Decoded rows snaps e in
      subst (Decoded ((key, bytes) ∷ rows)) (ok-injective _ out h₂) (record {
        sound = (((key, bytes), inl refl, d), behind (key, bytes) rows snaps rest.sound);
        complete = λ s i. elim i.1 [
          | inl same ↦ inl (ok-injective s snap (cc (i.2, d, same)))
          | inr m ↦ inr (rest.complete s (i.0, m, i.2))
        ];
      })

  -- A snapshot that the filter asks for.
  abbrev pub Wanted : SnapshotFilter → Snapshot → Type 0
  Wanted filter s = (of_kind filter.kind s ≡ true) × (labeled filter.label_contains s ≡ true)

  pub record Listed (filter : SnapshotFilter) (rows : List (StorageKey × Bytes))
      (out : List Snapshot) : Type 0 where
    pub wanted : List Snapshot
    pub out_so : out ≡ truncated filter.limit wanted
    pub sorted : IsSortedBy later_leb wanted
    pub sound :
        All
          (λ s.
            (InRows rows s × (of_kind filter.kind s ≡ true))
            × (labeled filter.label_contains s ≡ true))
          wanted
    pub complete : (s : Snapshot) → InRows rows s → Wanted filter s → Member s wanted

  -- A listing that returns is the latest of the snapshots that are wanted, as many as the limit says,
  -- the later first; wanted are those in rows of the run, of the kind and with the text in the label,
  -- all of them and no others.
  pub list-Listed :
      (filter : SnapshotFilter) (c : st.Contents) (out : List Snapshot)
      → list filter c ≡ ok out
      → Listed filter (st.scan_bytes (filter_prefix filter.run_id) c) out
  unfolding list
  list-Listed filter c out h =
      let rows = st.scan_bytes (filter_prefix filter.run_id) c in
      let (all, d, h₁) = >>=-eq-ok (decode_values rows) _ h in
      let k = of_kind filter.kind in
      let l = labeled filter.label_contains in
      let all_so = decode_values-Decoded rows all d in
      record {
        wanted = sort_by later_leb (keep l (keep k all));
        out_so = cc (h₁);
        sorted = sort_by-IsSortedBy later_leb later_leb-IsTotal (keep l (keep k all));
        sound =
            sort_by-All later_leb _ (keep l (keep k all))
              (keep-both _ l (keep k all) (keep-both _ k all all_so.sound));
        complete = λ s i w.
            sort_by-Member later_leb s (keep l (keep k all))
              (keep-Member l s (keep k all) w.1 (keep-Member k s all w.0 (all_so.complete s i)));
      }
