-- ===== src/Queue/Restart.antt =====
-- What the queue holds when it is opened again over its store.
use rollout.Prelude.{
  ℕ, ◌≡◌, List, [], ◌∷◌, Option, none, some, arith, Bool-cases, inl, inr, Member, ◌∙◌, ap, sym,
}
use rollout.Prelude.Sort.{sort_by-Member, sort_by-IsSortedBy, IsSortedBy, IsTotal}
use rollout.Core.Ids.{Bytes}
use rollout.Core.Keys.{StorageKey, key_eq, key_eq→eq}
use rollout.Core.Externals.{UlidText}
use rollout.Store.{Storage}
use rollout.Store.Rows.{find_row}
use rollout.Queue.{
  all_items, id_leb, key_for, parse_segment, first_segment, push_item, items_of, open_queue,
}

id_leb-IsTotal : IsTotal id_leb
id_leb-IsTotal = record { total = λ a b h. ground arith; trans = λ a b c h k. ground arith }

module _ ⦃ulids : UlidText⦄ where
  -- What stands after an entry stands after it whatever its key is.
  push_item-Member :
      (o : Option ℕ) (payload : Bytes) (items : List (ℕ × Bytes)) (z : ℕ × Bytes)
      → Member z items
      → Member z (push_item o payload items)
  push_item-Member none payload items z h = h
  push_item-Member (some id) payload items z h = inr h

  items_of-Member :
      (id : ℕ) (payload : Bytes) (rows : List (StorageKey × Bytes))
      → find_row (key_for id) rows ≡ some payload
      → Member (id, payload) (items_of rows)
  unfolding items_of
  items_of-Member id payload [] h = absurd (cc)
  items_of-Member id payload ((k, v) ∷ rows) h = elim (Bool-cases (key_eq k (key_for id))) [
    | inl e ↦
        let same : k ≡ key_for id = key_eq→eq k (key_for id) e in
        let value : v ≡ payload = ground arith in
        rw (same, ulids.parse-str id) (inl (ap (λ b. (id, b)) (sym value)))
    | inr e ↦
        push_item-Member (parse_segment (first_segment k.path)) v (items_of rows) (id, payload)
          (items_of-Member id payload rows (rw (e, find_row) at h))
  ]

module _ ⦃st : Storage⦄ ⦃ulids : UlidText⦄ where
  -- Opened over a store, the queue holds every item whose row is there, so every item that was put
  -- and not yet acknowledged, with its payload; and its items stand in the order of their ids.
  pub open_queue-recovers :
      (c : st.Contents)
      → ((id : ℕ) (payload : Bytes)
          → st.get_bytes (key_for id) c ≡ some payload
          → Member (id, payload) (open_queue c).inner)
        × IsSortedBy id_leb (open_queue c).inner
  unfolding open_queue
  open_queue-recovers c = (
    λ id payload h.
        sort_by-Member id_leb (id, payload) (items_of (st.scan_bytes all_items c))
          (items_of-Member id payload (st.scan_bytes all_items c)
            (st.find-scan (key_for id) all_items c ∙ h)),
    sort_by-IsSortedBy id_leb id_leb-IsTotal (items_of (st.scan_bytes all_items c)),
  )
