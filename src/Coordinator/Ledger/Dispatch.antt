-- ===== src/Coordinator/Ledger/Dispatch.antt =====
-- What a dispatch hands out, and what it does to the row of the item.
use rollout.Prelude.{
  ℕ, ◌≡◌, Bool, true, false, List, [], ◌∷◌, none, some, arith, All, Member, Option-cases, inl, inr,
  codes, bytes_eq→eq, subst,
}
use rollout.Prelude.Sort.{
  sort_by, sort_by-All, sort_by-All_inv, IsSortedBy, sort_by-IsSortedBy, IsTotal, total_refl,
  option_leb, option_leb-IsTotal, sort_by-Member, last?,
}
use rollout.Core.Ids.{Bytes, RunId, WorkerId, ContentId}
use rollout.Core.Errors.{ok, ◌>>=◌}
use rollout.Core.Keys.{StorageKey, key_eq, key_has_prefix, key_eq_refl}
use rollout.Core.Externals.{Blake3}
use rollout.Store.{Storage, Codec, encode, store_new, cas-hit}
use rollout.Store.Scan.{Scanned, scan-Scanned}
use rollout.Coordinator.WorkItem.{
  WorkState, pending, running, WorkItemRecord, work_key, try_claim, swap_state,
}
use rollout.Coordinator.WorkItem.Swap.{Holds}
use rollout.Coordinator.Ledger.{
  queue_prefix, entry_leb, head?, next_pending_entry, dispatch_entry, dispatch,
}

entry_leb-IsTotal : IsTotal entry_leb
entry_leb-IsTotal = record {
  total = λ a b. option_leb-IsTotal.total (last? a.0.path) (last? b.0.path);
  trans = λ a b c. option_leb-IsTotal.trans (last? a.0.path) (last? b.0.path) (last? c.0.path);
}

head?-All {ℓ κ} :
    {A : Type ℓ} (P : A → Type κ) (xs : List A) (x : A) → All P xs → head? xs ≡ some x → P x
head?-All P [] x h e = cc
head?-All P (y ∷ ys) x h e = subst P (cc) h.0

head?-none : {A : Type 0} (xs : List A) (x : A) → head? xs ≡ none → Member x xs → ⊥
head?-none [] x e m = m
head?-none (y ∷ ys) x e m = cc

head-least {ℓ} :
    {A : Type ℓ} (le : A → A → Bool) (xs : List A) (x : A)
    → IsTotal le
    → IsSortedBy le xs
    → head? xs ≡ some x
    → All (λ y. le x y ≡ true) xs
head-least le [] x o s e = tt
head-least le (y ∷ ys) x o s e =
    subst (λ z. All (λ y'. le z y' ≡ true) (y ∷ ys)) (cc) (total_refl le o y, s.0)

-- A queue entry is no work row.
queue_entry-ne :
    (run_id run' : RunId) (id : ContentId) (k : StorageKey)
    → key_has_prefix k (queue_prefix run_id) ≡ true
    → (key_eq k (work_key run' id) ≡ false) × (key_eq (work_key run' id) k ≡ false)
queue_entry-ne run_id run' id k h =
    let ns : k.namespace ≡ codes "queue_items" =
      bytes_eq→eq k.namespace (codes "queue_items") (ground arith) in
    (rw ns, rw ns)

module _ ⦃st : Storage⦄ ⦃codec : Codec WorkItemRecord⦄ ⦃blake3 : Blake3⦄ where
  -- The entry that is dispatched is in the queue, and no entry of the queue has a smaller key.
  pub next_pending_entry-least :
      (run_id : RunId) (c : st.Contents) (e : StorageKey × Bytes)
      → next_pending_entry run_id c ≡ some e
      → (key_has_prefix e.0 (queue_prefix run_id) ≡ true)
        × (st.get_bytes e.0 c ≡ some e.1)
        × All (λ e'. entry_leb e e' ≡ true) (st.scan_bytes (queue_prefix run_id) c)
  unfolding next_pending_entry
  next_pending_entry-least run_id c e h =
      let rows : List (StorageKey × Bytes) = st.scan_bytes (queue_prefix run_id) c in
      let (under, held) =
        head?-All (Scanned (queue_prefix run_id) c) (sort_by entry_leb rows) e
          (sort_by-All entry_leb (Scanned (queue_prefix run_id) c) rows
            (scan-Scanned (queue_prefix run_id) c))
          h in
      (
        under,
        held,
        sort_by-All_inv entry_leb (λ e'. entry_leb e e' ≡ true) rows
            (head-least entry_leb (sort_by entry_leb rows) e entry_leb-IsTotal
              (sort_by-IsSortedBy entry_leb entry_leb-IsTotal rows) h),
      )

  no_entry :
      (run_id : RunId) (c : st.Contents) (e : StorageKey × Bytes)
      → next_pending_entry run_id c ≡ none
      → Member e (st.scan_bytes (queue_prefix run_id) c)
      → ⊥
  unfolding next_pending_entry
  no_entry run_id c e h m =
      let rows = st.scan_bytes (queue_prefix run_id) c in
      head?-none (sort_by entry_leb rows) e h (sort_by-Member entry_leb e rows m)

  abbrev pub item_of : Bytes → WorkState → WorkItemRecord
  item_of payload s = record { id = blake3.content_of payload; state = s }

  -- What a dispatch does with the entry that it has found.
  dispatch_of_entry :
      (run_id : RunId) (worker_id : WorkerId) (now_ms : ℕ) (committed c : st.Contents)
      (k : StorageKey) (payload b b' : Bytes)
      → next_pending_entry run_id committed ≡ some (k, payload)
      → encode (item_of payload pending) ≡ ok b
      → encode (item_of payload (running worker_id now_ms)) ≡ ok b'
      → (c' : st.Contents) × (dispatch run_id worker_id now_ms committed c
          ≡ ok (some (blake3.content_of payload), c'))
        × Holds run_id (item_of payload (running worker_id now_ms)) c'
        × (st.get_bytes k c' ≡ none)
        × ((j : StorageKey)
            → key_eq k j ≡ false
            → key_eq (work_key run_id (blake3.content_of payload)) j ≡ false
            → st.get_bytes j c' ≡ st.get_bytes j c)
  unfolding dispatch dispatch_entry try_claim swap_state store_new
  dispatch_of_entry run_id worker_id now_ms committed c k payload b b' h e e' =
      let id = blake3.content_of payload in
      let key : StorageKey = work_key run_id id in
      let (under, held, least) = next_pending_entry-least run_id committed (k, payload) h in
      let (ne, ne') = queue_entry-ne run_id run_id id k under in
      let c₁ : st.Contents = st.put_bytes key b c in
      let c₂ : st.Contents = st.put_bytes key b' c₁ in
      let here : st.get_bytes key c₁ ≡ some b =
        ground (arith, st.get-put key key b c, key_eq_refl key) in
      (
        st.delete k c₂,
        rw (h, dispatch, e, e', ◌>>=◌, cas-hit key (some b) (some b') c₁ here),
        record {
          bytes = b';
          encoded = e';
          stored =
              ground (arith, st.get-delete key k c₂, st.get-put key key b' c₁, key_eq_refl key, ne);
        },
        ground (arith, st.get-delete k k c₂, key_eq_refl k),
        λ j other no_row.
            ground (arith, st.get-delete j k c₂, st.get-put j key b' c₁, st.get-put j key b c),
      )

  -- A dispatch from a queue that is not empty assigns to the caller the payload of the entry with the
  -- least ULID text of all, and takes that entry from the queue; it changes no other row but that of the
  -- item, which then runs on the caller, whatever it held before: the claim never loses. So a row that is
  -- already running or done starts again. The encoder must succeed.
  pub dispatch_assigns :
      (run_id : RunId) (worker_id : WorkerId) (now_ms : ℕ) (committed c : st.Contents)
      (entry : StorageKey × Bytes)
      → Member entry (st.scan_bytes (queue_prefix run_id) committed)
      → ((rec : WorkItemRecord) → (b : Bytes) × (encode rec ≡ ok b))
      → (k : StorageKey) × (payload : Bytes) × (c' : st.Contents) × (key_has_prefix k
            (queue_prefix run_id)
          ≡ true)
        × (st.get_bytes k committed ≡ some payload)
        × All
            (λ e. option_leb (last? k.path) (last? e.0.path) ≡ true)
            (st.scan_bytes (queue_prefix run_id) committed)
        × (dispatch run_id worker_id now_ms committed c ≡ ok (some (blake3.content_of payload), c'))
        × Holds run_id (item_of payload (running worker_id now_ms)) c'
        × (st.get_bytes k c' ≡ none)
        × ((j : StorageKey)
            → key_eq k j ≡ false
            → key_eq (work_key run_id (blake3.content_of payload)) j ≡ false
            → st.get_bytes j c' ≡ st.get_bytes j c)
  dispatch_assigns run_id worker_id now_ms committed c entry m encodes =
      elim (Option-cases (next_pending_entry run_id committed)) [
        | inl nothing ↦ absurd (no_entry run_id committed entry nothing m)
        | inr ((k, payload), found) ↦
            let (under, held, least) =
              next_pending_entry-least run_id committed (k, payload) found in
            let (b, e) = encodes (item_of payload pending) in
            let (b', e') = encodes (item_of payload (running worker_id now_ms)) in
            let (c', d, h, g, o) =
              dispatch_of_entry run_id worker_id now_ms committed c k payload b b' found e e' in
            (k, payload, c', under, held, least, d, h, g, o)
      ]

  -- Two dispatchers that have read the same queue are both given the same item, for two workers: the
  -- second one replaces the claim of the first, and both are told that the item is theirs.
  pub concurrent_dispatch_assigns_twice :
      (run_id : RunId) (w₁ w₂ : WorkerId) (t₁ t₂ : ℕ) (committed : st.Contents) (k : StorageKey)
      (payload b b₁ b₂ : Bytes)
      → next_pending_entry run_id committed ≡ some (k, payload)
      → encode (item_of payload pending) ≡ ok b
      → encode (item_of payload (running w₁ t₁)) ≡ ok b₁
      → encode (item_of payload (running w₂ t₂)) ≡ ok b₂
      → (c₁ c₂ : st.Contents) × (dispatch run_id w₁ t₁ committed committed
          ≡ ok (some (blake3.content_of payload), c₁))
        × Holds run_id (item_of payload (running w₁ t₁)) c₁
        × (dispatch run_id w₂ t₂ committed c₁ ≡ ok (some (blake3.content_of payload), c₂))
        × Holds run_id (item_of payload (running w₂ t₂)) c₂
  concurrent_dispatch_assigns_twice run_id w₁ w₂ t₁ t₂ committed k payload b b₁ b₂ h e e₁ e₂ =
      let (c₁, d₁, h₁, g₁, o₁) =
        dispatch_of_entry run_id w₁ t₁ committed committed k payload b b₁ h e e₁ in
      let (c₂, d₂, h₂, g₂, o₂) =
        dispatch_of_entry run_id w₂ t₂ committed c₁ k payload b b₂ h e e₂ in
      (c₁, c₂, d₁, h₁, d₂, h₂)
