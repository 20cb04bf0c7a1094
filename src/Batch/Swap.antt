-- ===== src/Batch/Swap.antt =====
-- What one swap of a sample's record does to its row and to all others.
use rollout.Prelude.{◌≡◌, refl, subst, Bool, true, false, some, arith}
use rollout.Core.Ids.{Bytes, RunId}
use rollout.Core.Errors.{ok, >>=-eq-ok, ok-injective}
use rollout.Core.Keys.{StorageKey, key_eq, key_eq_refl}
use rollout.Store.{Storage, Codec, encode, cas_bytes, cas-won, cas-lost, cas-hit, get-cas}
use rollout.Batch.{SampleState, SampleRecord, sample_key, swap_sample}

abbrev pub with_state : SampleRecord → SampleState → SampleRecord
with_state rec s = record rec { state = s }

module _ ⦃st : Storage⦄ ⦃codec : Codec SampleRecord⦄ where
  -- The row of the record's sample holds the bytes of that record.
  pub record Holds (run_id : RunId) (rec : SampleRecord) (c : st.Contents) : Type 0 where
    pub bytes : Bytes
    pub encoded : encode rec ≡ ok bytes
    pub stored : st.get_bytes (sample_key run_id rec.id) c ≡ some bytes

  pub record Swapped (run_id : RunId) (rec : SampleRecord) (next : SampleState) (c : st.Contents)
      (won : Bool) (c' : st.Contents) : Type 0 where
    pub before : won ≡ true → Holds run_id rec c
    pub after : won ≡ true → Holds run_id (with_state rec next) c'
    pub unchanged : won ≡ false → c' ≡ c
    pub applies : Holds run_id rec c → won ≡ true
    pub frame :
        (j : StorageKey)
        → key_eq (sample_key run_id rec.id) j ≡ false
        → st.get_bytes j c' ≡ st.get_bytes j c

  swap_of_bytes :
      (run_id : RunId) (rec : SampleRecord) (next : SampleState) (c : st.Contents) (b b' : Bytes)
      → encode rec ≡ ok b
      → encode (with_state rec next) ≡ ok b'
      → Swapped run_id rec next c
          (cas_bytes (sample_key run_id rec.id) (some b) (some b') c).0
          (cas_bytes (sample_key run_id rec.id) (some b) (some b') c).1
  swap_of_bytes run_id rec next c b b' e e' =
      let key : StorageKey = sample_key run_id rec.id in
      record {
        before =
            λ w. record { bytes = b; encoded = e; stored = cas-won key (some b) (some b') c w };
        after = λ w. record {
          bytes = b';
          encoded = e';
          stored = ground (arith, get-cas key key (some b) b' c, key_eq_refl key);
        };
        unchanged = cas-lost key (some b) (some b') c;
        applies = λ h.
            let same : h.bytes ≡ b = ok-injective h.bytes b (cc (h.encoded, e)) in
            let here : st.get_bytes key c ≡ some b = rw (← same) h.stored in
            rw (cas-hit key (some b) (some b') c here) refl;
        frame = λ j ne. ground (arith, get-cas j key (some b) b' c);
      }

  pub swap_sample-Swapped :
      (run_id : RunId) (rec : SampleRecord) (next : SampleState) (c : st.Contents) {won : Bool}
      {c' : st.Contents}
      → swap_sample run_id rec next c ≡ ok (won, c')
      → Swapped run_id rec next c won c'
  unfolding swap_sample
  swap_sample-Swapped run_id rec next c h =
      let (b, e, h₁) = >>=-eq-ok (encode rec) _ h in
      let (b', e', h₂) = >>=-eq-ok (encode (with_state rec next)) _ h₁ in
      subst (λ (p : Bool × st.Contents). Swapped run_id rec next c p.0 p.1) (ok-injective _ _ h₂)
        (swap_of_bytes run_id rec next c b b' e e')
