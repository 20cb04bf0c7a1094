-- ===== src/Store/Encoding.antt =====
-- The encoding of records as bytes (the `postcard` crate), which the code uses but does not hold.
-- Documented behaviour: what was encoded decodes to the record it came from.
use rollout.Prelude.{◌≡◌, Option, some, arith}
use rollout.Core.Ids.{Bytes}
use rollout.Core.Errors.{Result, ok, or_internal}

pub record Codec (A : Type 0) : Type 0 where
  pub to_stdvec : A → Option Bytes
  pub from_bytes : Bytes → Option A
  pub round_trip : (a : A) (b : Bytes) → to_stdvec a ≡ some b → from_bytes b ≡ some a

module _ {A : Type 0} ⦃codec : Codec A⦄ where
  -- `postcard::to_stdvec(rec).map_err(internal)`
  unfoldable pub encode : A → Result Bytes
  encode a = or_internal "postcard encode" (codec.to_stdvec a)

  -- `postcard::from_bytes(bytes).map_err(internal)`
  unfoldable pub decode : Bytes → Result A
  decode b = or_internal "postcard decode" (codec.from_bytes b)

  pub decode-encode : (a : A) {b : Bytes} → encode a ≡ ok b → decode b ≡ ok a
  unfolding encode decode
  decode-encode a {b} h = ground (arith, codec.round_trip a b)

  -- Records with the same bytes are the same.
  pub encode-injective : (x y : A) {b : Bytes} → encode x ≡ ok b → encode y ≡ ok b → x ≡ y
  encode-injective x y h k = cc (decode-encode x h, decode-encode y k)
