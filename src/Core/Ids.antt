-- ===== src/Core/Ids.antt =====
-- crates/rollout-core/src/ids.rs: run, worker and content identifiers.
-- A ULID is its 128-bit value. A content id is its 32 bytes.
use rollout.Prelude.{ℕ, ◌+◌, ◌/◌, ◌%◌, ◌≡◌, refl, List, [], ◌∷◌, arith, ltb, if◌then◌else◌, codes}

abbrev pub Bytes : Type 0
Bytes = List ℕ

abbrev pub RunId : Type 0
RunId = ℕ

abbrev pub WorkerId : Type 0
WorkerId = ℕ

abbrev pub ContentId : Type 0
ContentId = List ℕ

-- `{:x}` of one digit.
unfoldable pub hex_digit : ℕ → ℕ
hex_digit d = if ltb d 10 then d + 48 else d + 87

pub hex_digit-injective : (d e : ℕ) → hex_digit d ≡ hex_digit e → d ≡ e
unfolding hex_digit
hex_digit-injective d e h = ground arith

-- `Display for ContentId`: two digits for each byte.
unfoldable pub content_str : ContentId → Bytes
unfolding hex_digit
content_str [] = []
content_str (b ∷ bs) = hex_digit (b / 16) ∷ hex_digit (b % 16) ∷ content_str bs

content_str_example : content_str (0 ∷ 255 ∷ 66 ∷ []) ≡ codes "00ff42"
unfolding content_str
content_str_example = refl

-- Two content ids that print alike are the same.
pub content_str-injective : (a b : ContentId) → content_str a ≡ content_str b → a ≡ b
unfolding content_str
content_str-injective [] [] h = refl
content_str-injective [] (y ∷ ys) h = cc
content_str-injective (x ∷ xs) [] h = cc
content_str-injective (x ∷ xs) (y ∷ ys) h = ground (arith, content_str-injective xs ys)
