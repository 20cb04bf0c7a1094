-- ===== src/Coordinator/WorkItem/Swap.antt =====
-- What one swap of a work item's record does to its row and to all others.
use rollout.Prelude.{◌≡◌, subst, Bool, true, false, some, arith}
use rollout.Core.Ids.{Bytes, RunId}
use rollout.Core.Errors.{ok, >>=-eq-ok, ok-injective}
use rollout.Core.Keys.{StorageKey, key_eq, key_eq_refl}
use rollout.Store.{
  Storage, Codec, encode, encode-injective, cas_bytes, cas-won, cas-hit, cas-lost, get-cas,
}
use rollout.Coordinator.WorkItem.{WorkState, WorkItemRecord, work_key, swap_state}

abbrev pub with_state : WorkItemRecord → WorkState → WorkItemRecord
with_state rec s = record rec { state = s }

module _ ⦃st : Storage⦄ ⦃codec : Codec WorkItemRecord⦄ where
  -- The row of the record's item holds the bytes of that record.
  pub record Holds (run_id : RunId) (rec : WorkItemRecord) (c : st.Contents) : Type 0 where
    pub bytes : Bytes
    pub encoded : encode rec ≡ ok bytes
    pub stored : st.get_bytes (work_key run_id rec.id) c ≡ some bytes

  -- A row holds one record.
  pub Holds-unique :
      {run_id : RunId} {x y : WorkItemRecord} {c : st.Contents}
      → x.id ≡ y.id
      → Holds run_id x c
      → Holds run_id y c
      → x ≡ y
  Holds-unique {run_id} {x} {y} e hx hy =
      encode-injective x y hx.encoded (cc (hy.encoded, hx.stored, hy.stored, same))
    where
      same : work_key run_id x.id ≡ work_key run_id y.id
      same = cc

  -- The four facts of a swap that returned.
  pub record Swapped (run_id : RunId) (rec : WorkItemRecord) (next : WorkState) (c : st.Contents)
      (won : Bool) (c' : st.Contents) : Type 0 where
    pub before : won ≡ true → Holds run_id rec c
    pub after : won ≡ true → Holds run_id (with_state rec next) c'
    pub unchanged : won ≡ false → c' ≡ c
    pub frame :
        (j : StorageKey)
        → key_eq (work_key run_id rec.id) j ≡ false
        → st.get_bytes j c' ≡ st.get_bytes j c
    pub hit : Holds run_id rec c → won ≡ true

  swap_of_bytes :
      (run_id : RunId) (rec : WorkItemRecord) (next : WorkState) (c : st.Contents) (b b' : Bytes)
      → encode rec ≡ ok b
      → encode (with_state rec next) ≡ ok b'
      → Swapped run_id rec next c
          (cas_bytes (work_key run_id rec.id) (some b) (some b') c).0
          (cas_bytes (work_key run_id rec.id) (some b) (some b') c).1
  swap_of_bytes run_id rec next c b b' e e' = record {
    before = λ w. record { bytes = b; encoded = e; stored = cas-won key (some b) (some b') c w };
    after = λ w. record {
      bytes = b';
      encoded = e';
      stored = ground (arith, get-cas key key (some b) b' c, key_eq_refl key);
    };
    unchanged = cas-lost key (some b) (some b') c;
    frame = λ j ne. ground (arith, get-cas j key (some b) b' c);
    hit = λ h. ap_won (cas-hit key (some b) (some b') c (cc (h.encoded, h.stored)));
  }
    where
      key : StorageKey
      key = work_key run_id rec.id

      ap_won :
          {c' : st.Contents}
          → cas_bytes key (some b) (some b') c ≡ (true, c')
          → (cas_bytes key (some b) (some b') c).0 ≡ true
      ap_won h = cc

  pub swap_state-Swapped :
      (run_id : RunId) (rec : WorkItemRecord) (next : WorkState) (c : st.Contents) {won : Bool}
      {c' : st.Contents}
      → swap_state run_id rec next c ≡ ok (won, c')
      → Swapped run_id rec next c won c'
  unfolding swap_state
  swap_state-Swapped run_id rec next c h =
      let (b, e, h₁) = >>=-eq-ok (encode rec) _ h in
      let (b', e', h₂) = >>=-eq-ok (encode (with_state rec next)) _ h₁ in
      subst (λ (p : Bool × st.Contents). Swapped run_id rec next c p.0 p.1) (ok-injective _ _ h₂)
        (swap_of_bytes run_id rec next c b b' e e')
