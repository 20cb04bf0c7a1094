-- ===== src/Batch/Collect.antt =====
-- What is collected at the end of a run.
use mathlib.Core.List.{Permᴰ}
use mathlib.Core.List.Permᴰ
use rollout.Prelude.{◌≡◌, refl, sym, Bool, List, [], ◌∷◌, arith, if-elim, keep, subst}
use rollout.Prelude.Sort.{insert_by, sort_by, sort_by-IsSortedBy, IsSortedBy, IsTotal}
use rollout.Core.Ids.{Bytes}
use rollout.Core.Errors.{ok, >>=-eq-ok, ok-injective}
use rollout.Core.Keys.{StorageKey}
use rollout.Store.{Storage, Codec, decode}
use rollout.Batch.{SampleRecord}
use rollout.Batch.Plan.{
  BatchCoordinator, sample_prefix, is_done, done_of, idx_leb, collect_done_records,
}

idx_leb-IsTotal : IsTotal idx_leb
idx_leb-IsTotal = record { total = λ a b h. ground arith; trans = λ a b c h k. ground arith }

insert_by-Perm :
    {A : Type 0} (le : A → A → Bool) (x : A) (xs : List A) → Permᴰ (insert_by le x xs) (x ∷ xs)
unfolding insert_by
insert_by-Perm le x [] = Permᴰ.refl (x ∷ [])
insert_by-Perm le x (y ∷ ys) =
    if-elim (λ zs. Permᴰ zs (x ∷ y ∷ ys)) (le x y) (x ∷ y ∷ ys) (y ∷ insert_by le x ys)
      (λ e. Permᴰ.refl (x ∷ y ∷ ys))
      (λ e. Permᴰ.trans (Permᴰ.cons refl (insert_by-Perm le x ys)) (Permᴰ.swap refl refl))

sort_by-Perm : {A : Type 0} (le : A → A → Bool) (xs : List A) → Permᴰ (sort_by le xs) xs
unfolding sort_by
sort_by-Perm le [] = Permᴰ.nil
sort_by-Perm le (x ∷ xs) =
    Permᴰ.trans (insert_by-Perm le x (sort_by le xs)) (Permᴰ.cons refl (sort_by-Perm le xs))

abbrev pub over : SampleRecord → Bool
over rec = is_done rec.state

module _ ⦃st : Storage⦄ ⦃codec : Codec SampleRecord⦄ where
  -- The records are those of the rows, one for each.
  abbrev pub DecodeTo : List (StorageKey × Bytes) → List SampleRecord → Type 0
  DecodeTo [] [] = Unit
  DecodeTo (row ∷ rows) (rec ∷ recs) = (decode row.1 ≡ ok rec) × DecodeTo rows recs
  DecodeTo _ _ = ⊥

  -- All rows decode, and what is collected are the records of those that are done, each as often as it
  -- has rows, in the order of the input file.
  pub record Collected (rows : List (StorageKey × Bytes)) (out : List SampleRecord) : Type 0 where
    pub recs : List SampleRecord
    pub decoded : DecodeTo rows recs
    pub done_ones : Permᴰ out (keep over recs)
    pub in_order : IsSortedBy idx_leb out

  -- The same before the sort.
  record Found (rows : List (StorageKey × Bytes)) (out : List SampleRecord) : Type 0 where
    recs : List SampleRecord
    decoded : DecodeTo rows recs
    so : out ≡ keep over recs

  done_of-Found :
      (rows : List (StorageKey × Bytes)) (out : List SampleRecord)
      → done_of rows ≡ ok out
      → Found rows out
  unfolding done_of keep
  done_of-Found [] out h = record { recs = []; decoded = tt; so = sym (ok-injective [] out h) }
  done_of-Found ((key, bytes) ∷ rows) out h =
      let (rec, d, h₁) = >>=-eq-ok (decode bytes) _ h in
      let (rest, e, h₂) = >>=-eq-ok (done_of rows) _ h₁ in
      let found = done_of-Found rows rest e in
      record {
        recs = rec ∷ found.recs;
        decoded = (d, found.decoded);
        so = rw (← found.so) (sym (ok-injective _ out h₂));
      }

  -- A collection that returns holds the records of the run's rows that are done, each once for each of
  -- its rows and no others, in the order of the input file.
  pub collect_done_records-Collected :
      (this : BatchCoordinator) (c : st.Contents) (out : List SampleRecord)
      → collect_done_records this c ≡ ok out
      → Collected (st.scan_bytes (sample_prefix this.run_id) c) out
  unfolding collect_done_records
  collect_done_records-Collected this c out h =
      let rows : List (StorageKey × Bytes) = st.scan_bytes (sample_prefix this.run_id) c in
      let (some_done, e, h₁) = >>=-eq-ok (done_of rows) _ h in
      let found = done_of-Found rows some_done e in
      subst (Collected rows) (ok-injective (sort_by idx_leb some_done) out h₁) (record {
        recs = found.recs;
        decoded = found.decoded;
        done_ones =
            subst (Permᴰ (sort_by idx_leb some_done)) found.so (sort_by-Perm idx_leb some_done);
        in_order = sort_by-IsSortedBy idx_leb idx_leb-IsTotal some_done;
      })
