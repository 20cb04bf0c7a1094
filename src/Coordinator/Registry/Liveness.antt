-- ===== src/Coordinator/Registry/Liveness.antt =====
-- A heartbeat protects its worker, and a worker that leaves is forgotten.
use rollout.Prelude.{
  ℕ, ◌+◌, ltb, ◌≡◌, ◌≤◌, ◌<◌, ◌/◌, true, false, List, none, some, arith, if◌then◌else◌, max, subst,
}
use rollout.Core.Ids.{Bytes, RunId, WorkerId}
use rollout.Core.Errors.{ok, >>=-eq-ok, ok-injective}
use rollout.Core.Keys.{StorageKey, key_eq, key_eq_refl}
use rollout.Core.Externals.{UlidText}
use rollout.Store.{Storage, Codec, encode, decode, decode-encode}
use rollout.Coordinator.Lease.{u64_mod}
use rollout.Coordinator.Registry.{
  WorkerRegistryEntry, HeartbeatRecord, Heartbeat, Event, worker_key, heartbeat_key, ms_to_systime,
  is_failed, deregister, known_or_register, beat, heartbeat,
}

-- Failed means late by more than both budgets.
pub is_failed_late :
    (now due skew coord_timeout : ℕ)
    → is_failed now due skew coord_timeout
      ≡ (if ltb (due + max skew coord_timeout) now then true else false)
unfolding is_failed
is_failed_late now due skew coord_timeout = ground arith

module _ ⦃st : Storage⦄ ⦃ulids : UlidText⦄ ⦃entries : Codec WorkerRegistryEntry⦄
    ⦃beats : Codec HeartbeatRecord⦄ where
  -- After a heartbeat that returns, from a known worker or a new one, its row holds its record, and no
  -- scan finds it failed until the deadline that it gave and the larger of the two budgets are over.
  pub heartbeat-keeps_alive :
      (run_id : RunId) (hb : Heartbeat) (now_ms : ℕ) (s s' : st.Contents × List Event)
      → heartbeat run_id hb now_ms s ≡ ok s'
      → hb.due_at / 1000 < u64_mod
      → (bytes : Bytes) × (st.get_bytes (heartbeat_key hb.worker_id) s'.0 ≡ some bytes)
        × (decode bytes ≡ ok (beat hb now_ms))
        × ((now skew coord_timeout : ℕ)
            → now ≤ hb.due_at + max skew coord_timeout
            → is_failed now (ms_to_systime (beat hb now_ms).due_at_ms) skew coord_timeout ≡ false)
  unfolding heartbeat ms_to_systime
  heartbeat-keeps_alive run_id hb now_ms s s' h fits =
      let (s₁, e₁, h₁) =
        >>=-eq-ok
          (known_or_register run_id hb.worker_id now_ms (st.get_bytes (worker_key hb.worker_id) s.0)
            s)
          _ h in
      let (bytes, e₂, h₂) = >>=-eq-ok (encode (beat hb now_ms)) _ h₁ in
      let key : StorageKey = heartbeat_key hb.worker_id in
      let stored : st.get_bytes key (st.put_bytes key bytes s₁.0) ≡ some bytes =
        ground (arith, st.get-put key key bytes s₁.0, key_eq_refl key) in
      (
        bytes,
        subst (λ (p : st.Contents × List Event). st.get_bytes key p.0 ≡ some bytes)
            (ok-injective _ s' h₂) stored,
        decode-encode (beat hb now_ms) e₂,
        λ now skew coord_timeout late. in_time now skew coord_timeout late,
      )
    where
      in_time :
          (now skew coord_timeout : ℕ)
          → now ≤ hb.due_at + max skew coord_timeout
          → is_failed now (ms_to_systime hb.due_at) skew coord_timeout ≡ false
      in_time now skew coord_timeout late =
          ground (arith, is_failed_late now hb.due_at skew coord_timeout)

  -- A worker that leaves has neither row any more, and no other row has changed.
  pub deregister-forgets :
      (worker : WorkerId) (s : st.Contents × List Event)
      → (st.get_bytes (worker_key worker) (deregister worker s).0 ≡ none)
        × (st.get_bytes (heartbeat_key worker) (deregister worker s).0 ≡ none)
        × ((j : StorageKey)
            → key_eq (worker_key worker) j ≡ false
            → key_eq (heartbeat_key worker) j ≡ false
            → st.get_bytes j (deregister worker s).0 ≡ st.get_bytes j s.0)
  unfolding deregister
  deregister-forgets worker s =
      let w : StorageKey = worker_key worker in
      let b : StorageKey = heartbeat_key worker in
      (
        ground (arith, st.get-delete w b (st.delete w s.0), st.get-delete w w s.0, key_eq_refl w),
        ground (arith, st.get-delete b b (st.delete w s.0), key_eq_refl b),
        λ j n n'. ground (arith, st.get-delete j b (st.delete w s.0), st.get-delete j w s.0),
      )
