-- ===== src/Store/Cas.antt =====
-- `cas_bytes` of crates/rollout-storage/src/embedded/txn.rs, over any contents.
use rollout.Prelude.{
  ◌≡◌, refl, Bool, true, false, Option, none, some, if◌then◌else◌, arith, bytes_eq, bytes_eq→eq,
  bytes_eq_refl,
}
use rollout.Core.Ids.{Bytes}
use rollout.Core.Keys.{StorageKey, key_eq}
use rollout.Store.Interface.{Storage}

-- `current.as_deref() == expected.as_deref()`
abbrev pub value_eq : Option Bytes → Option Bytes → Bool
value_eq none none = true
value_eq (some a) (some b) = bytes_eq a b
value_eq _ _ = false

pub value_eq→eq : (a b : Option Bytes) → value_eq a b ≡ true → a ≡ b
value_eq→eq none none h = refl
value_eq→eq none (some b) h = cc
value_eq→eq (some a) none h = cc
value_eq→eq (some a) (some b) h = cc (bytes_eq→eq a b h)

pub value_eq_refl : (a : Option Bytes) → value_eq a a ≡ true
value_eq_refl none = refl
value_eq_refl (some a) = bytes_eq_refl a

module _ ⦃st : Storage⦄ where
  -- The value that a key is left with: written, removed, or absent before and after.
  unfoldable pub store_new : StorageKey → Option Bytes → st.Contents → st.Contents
  store_new key (some v) c = st.put_bytes key v c
  store_new key none c = st.delete key c

  unfoldable pub cas_bytes :
      StorageKey → Option Bytes → Option Bytes → st.Contents → Bool × st.Contents
  unfolding store_new
  cas_bytes key expected new c =
      if value_eq (st.get_bytes key c) expected then (true, store_new key new c) else (false, c)

  -- A swap succeeds exactly where the current value is the expected one.
  pub cas-won :
      (key : StorageKey) (expected new : Option Bytes) (c : st.Contents)
      → (cas_bytes key expected new c).0 ≡ true
      → st.get_bytes key c ≡ expected
  unfolding cas_bytes
  cas-won key expected new c h = ground (arith, value_eq→eq (st.get_bytes key c) expected)

  pub cas-hit :
      (key : StorageKey) (expected new : Option Bytes) (c : st.Contents)
      → st.get_bytes key c ≡ expected
      → cas_bytes key expected new c ≡ (true, store_new key new c)
  unfolding cas_bytes
  cas-hit key expected new c h = rw (h, value_eq_refl expected)

  -- A failed swap changes nothing.
  pub cas-lost :
      (key : StorageKey) (expected new : Option Bytes) (c : st.Contents)
      → (cas_bytes key expected new c).0 ≡ false
      → (cas_bytes key expected new c).1 ≡ c
  unfolding cas_bytes
  cas-lost key expected new c h = ground arith

  -- Contents after a swap, at every key.
  pub get-cas :
      (j key : StorageKey) (expected : Option Bytes) (v : Bytes) (c : st.Contents)
      → st.get_bytes j (cas_bytes key expected (some v) c).1 ≡ (
          if (cas_bytes key expected (some v) c).0
          then (if key_eq key j then some v else st.get_bytes j c)
          else st.get_bytes j c)
  unfolding cas_bytes store_new
  get-cas j key expected v c = ground (arith, st.get-put j key v c)
