-- ===== src/Core/Externals.antt =====
-- What the code takes from crates: the BLAKE3 hash and the text of a ULID.
use rollout.Prelude.{ℕ, ◌≡◌, Option, some}
use rollout.Core.Ids.{Bytes, ContentId}

-- `blake3::hash`, as `ContentId::of` calls it. Nothing is assumed of it.
pub record Blake3 : Type 0 where
  pub content_of : Bytes → ContentId

-- `Ulid::to_string`: two ULIDs print alike only if they are the same.
pub record UlidText : Type 0 where
  pub ulid_str : ℕ → Bytes
  pub ulid_str-injective : (a b : ℕ) → ulid_str a ≡ ulid_str b → a ≡ b
  -- `parse::<Ulid>` reads back what `to_string` wrote.
  pub parse_ulid : Bytes → Option ℕ
  pub parse-str : (a : ℕ) → parse_ulid (ulid_str a) ≡ some a
