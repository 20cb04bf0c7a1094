-- ===== src/Queue/Delivery.antt =====
-- Delivery: what is enqueued is handed out, what is given back is handed out again, and what is
-- acknowledged is gone.
use rollout.Prelude.{ℕ, ◌≡◌, refl, false, [], ◌∷◌, none, some, arith}
use rollout.Core.Ids.{Bytes}
use rollout.Core.Errors.{ok, err, fatal, internal, recoverable, transient, never}
use rollout.Core.Keys.{key_eq, key_eq_refl}
use rollout.Core.Externals.{UlidText}
use rollout.Store.{Storage}
use rollout.Queue.{InMemQueue, key_for, enqueue, dequeue, ack, nack, extend_lease}

module _ ⦃st : Storage⦄ ⦃ulids : UlidText⦄ where
  -- An item is backed by the store with its payload.
  abbrev pub Backed : ℕ → Bytes → InMemQueue → Type 0
  Backed id payload q = st.get_bytes (key_for id) q.storage ≡ some payload

  -- An item that is put on an empty queue is handed out; given back, it is handed out again, first, and
  -- the queue is as before; and it is backed by the store all along.
  pub enqueue-nack-dequeue :
      (id : ℕ) (payload : Bytes) (c : st.Contents)
      → (q : InMemQueue) × (enqueue (some id) payload (record { inner = []; storage = c })
          ≡ ok (id, q))
        × (taken : InMemQueue) × (dequeue q ≡ (some (id, payload), taken))
        × Backed id payload taken
        × (nack id taken ≡ ok q)
  unfolding enqueue dequeue nack
  enqueue-nack-dequeue id payload c =
      let kept : st.get_bytes (key_for id) (st.put_bytes (key_for id) payload c) ≡ some payload =
        ground (arith, st.get-put (key_for id) (key_for id) payload c, key_eq_refl (key_for id)) in
      (
        record { inner = (id, payload) ∷ []; storage = st.put_bytes (key_for id) payload c },
        refl,
        record { inner = []; storage = st.put_bytes (key_for id) payload c },
        refl,
        kept,
        rw kept refl,
      )

  -- To give an item back twice puts it on the queue twice: the next two takers are both given it.
  pub nack_twice_delivers_twice :
      (id : ℕ) (payload : Bytes) (q : InMemQueue)
      → Backed id payload q
      → (q₁ q₂ : InMemQueue) × (nack id q ≡ ok q₁)
        × (nack id q₁ ≡ ok q₂)
        × (dequeue q₂ ≡ (some (id, payload), q₁))
        × (dequeue q₁ ≡ (some (id, payload), q))
  unfolding nack dequeue
  nack_twice_delivers_twice id payload q h = (
    record q { inner = (id, payload) ∷ q.inner },
    record q { inner = (id, payload) ∷ (id, payload) ∷ q.inner },
    rw h refl,
    rw h refl,
    refl,
    refl,
  )

  -- After its acknowledgement an item is neither given back nor extended, and no other item's row has
  -- changed.
  pub ack-ends :
      (id token extend_by : ℕ) (q : InMemQueue)
      → (nack id (ack id q) ≡ err (fatal (internal "nack: queue item absent from storage")))
        × (extend_lease id token extend_by (ack id q)
            ≡ err (recoverable (transient "extend_lease: not in-flight" never)))
        × ((id' : ℕ) (payload : Bytes)
            → key_eq (key_for id) (key_for id') ≡ false
            → Backed id' payload q
            → Backed id' payload (ack id q))
  unfolding ack nack extend_lease
  ack-ends id token extend_by q =
      let gone : st.get_bytes (key_for id) (st.delete (key_for id) q.storage) ≡ none =
        ground
          (arith, st.get-delete (key_for id) (key_for id) q.storage, key_eq_refl (key_for id)) in
      (
        rw gone refl,
        rw gone refl,
        λ id' payload ne h. ground (arith, st.get-delete (key_for id') (key_for id) q.storage, h),
      )
