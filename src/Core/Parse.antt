-- ===== src/Core/Parse.antt =====
-- crates/rollout-core/src/ids.rs: `FromStr for ContentId`, on the bytes of the text.
-- A text that is not ASCII has no answer here; the code refuses it, or panics where a character
-- straddles two of its slices.
use rollout.Prelude.{
  ℕ, ◌+◌, ◌-◌, ◌*◌, ◌/◌, ◌%◌, ◌<◌, ◌==◌, leb, ◌≡◌, refl, false, ◌&&◌, [], ◌∷◌, Option, none, some,
  if◌then◌else◌, arith, length, All, ap,
}
use rollout.Core.Ids.{Bytes, ContentId, hex_digit, content_str}

-- One hexadecimal digit, of either case.
unfoldable pub hex_value : ℕ → Option ℕ
hex_value c =
    if leb 48 c && leb c 57
    then some (c - 48)
    else (if leb 97 c && leb c 102
        then some (c - 87)
        else (if leb 65 c && leb c 70 then some (c - 55) else none))

abbrev pub two_digits : Option ℕ → Option ℕ → Option ℕ
two_digits none low = none
two_digits (some h) none = none
two_digits (some h) (some l) = some (h * 16 + l)

-- `u8::from_str_radix` on two characters. It takes a plus sign before the digits.
unfoldable pub hex_pair : ℕ → ℕ → Option ℕ
unfolding hex_value
hex_pair a b = if a == 43 then hex_value b else two_digits (hex_value a) (hex_value b)

abbrev pub cons? : Option ℕ → Option Bytes → Option Bytes
cons? none rest = none
cons? (some x) none = none
cons? (some x) (some xs) = some (x ∷ xs)

unfoldable pub parse_pairs : Bytes → Option Bytes
unfolding hex_pair
parse_pairs [] = some []
parse_pairs (a ∷ []) = none
parse_pairs (a ∷ b ∷ rest) = cons? (hex_pair a b) (parse_pairs rest)

unfoldable pub from_str : Bytes → Option ContentId
unfolding parse_pairs
from_str s = if length s == 64 then parse_pairs s else none

hex_value-digit :
    (d : ℕ) → d < 16 → (hex_value (hex_digit d) ≡ some d) × ((hex_digit d == 43) ≡ false)
unfolding hex_value hex_digit
hex_value-digit d h = ground arith

hex_pair-digits : (b : ℕ) → b < 256 → hex_pair (hex_digit (b / 16)) (hex_digit (b % 16)) ≡ some b
unfolding hex_pair
hex_pair-digits b h =
    let (high, sign) = hex_value-digit (b / 16) (omega (arith, h)) in
    let (low, unused) = hex_value-digit (b % 16) (omega arith) in
    rw (sign, high, low, hex_pair, two_digits) (ap some (omega arith))

parse_pairs-content_str :
    (id : ContentId) → All (λ b. b < 256) id → parse_pairs (content_str id) ≡ some id
unfolding parse_pairs content_str
parse_pairs-content_str [] h = refl
parse_pairs-content_str (b ∷ bs) h = rw (hex_pair-digits b h.0, parse_pairs-content_str bs h.1)

length-content_str : (id : ContentId) → length (content_str id) ≡ length id + length id
unfolding content_str
length-content_str [] = refl
length-content_str (b ∷ bs) = omega (arith, length-content_str bs)

-- A content id of 32 bytes reads back from its text.
pub from_str-content_str :
    (id : ContentId) → All (λ b. b < 256) id → length id ≡ 32 → from_str (content_str id) ≡ some id
unfolding from_str
from_str-content_str id h n =
    let size : length (content_str id) ≡ 64 = omega (arith, n, length-content_str id) in
    rw size (parse_pairs-content_str id h)

-- Ids are not the only texts that are read: a sign may stand for a leading zero.
plus_sign : hex_pair 43 102 ≡ some 15
unfolding hex_pair hex_value
plus_sign = refl
