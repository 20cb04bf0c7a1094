-- ===== src/Egress/Cidr.antt =====
-- The filter of addresses against the address blocks that it names, as ranges of 32-bit numbers.
use rollout.Prelude.{
  ℕ, ◌+◌, ◌*◌, ◌==◌, leb, ◌≡◌, ◌<◌, refl, Bool, true, false, ◌&&◌, ◌||◌, List, [], ◌∷◌, Option,
  none, some, if◌then◌else◌, arith, ◌∙◌, ap,
}
use rollout.Egress.Filter.{
  loopback, unspecified, link_local, private_range, multicast, cgnat, Ipv4Addr, within, is_loopback,
  is_unspecified, is_link_local, is_multicast, is_broadcast, blocked_v4,
}

-- The address as one number, the first octet highest.
abbrev pub number : Ipv4Addr → ℕ
number a = a.o0 * 16777216 + a.o1 * 65536 + a.o2 * 256 + a.o3

pub record IsOctets (a : Ipv4Addr) : Type 0 where
  pub h0 : a.o0 < 256
  pub h1 : a.o1 < 256
  pub h2 : a.o2 < 256
  pub h3 : a.o3 < 256

-- From the first address of a block to its last.
abbrev pub in_block : ℕ → ℕ × ℕ → Bool
in_block n b = leb b.0 n && leb n b.1

abbrev pub in_any : ℕ → List (ℕ × ℕ) → Bool
in_any n [] = false
in_any n (b ∷ bs) = in_block n b || in_any n bs

-- 127/8, 0.0.0.0/32, 169.254/16, 10/8, 172.16/12, 192.168/16, 224/4, 255.255.255.255/32 and 100.64/10.
abbrev pub forbidden : List (ℕ × ℕ)
forbidden =
    (2130706432, 2147483647)
    ∷ (0, 0)
    ∷ (2851995648, 2852061183)
    ∷ (167772160, 184549375)
    ∷ (2886729728, 2887778303)
    ∷ (3232235520, 3232301055)
    ∷ (3758096384, 4026531839)
    ∷ (4294967295, 4294967295)
    ∷ (1681915904, 1686110207)
    ∷ []

abbrev pub is_some {ℓ} : {A : Type ℓ} → Option A → Bool
is_some none = false
is_some (some a) = true

-- Two blocks agree with the two tests on the highest octets that stand for them.
one_octet :
    (a : Ipv4Addr) (x : ℕ)
    → IsOctets a
    → (a.o0 == x) ≡ in_block (number a) (x * 16777216, x * 16777216 + 16777215)
one_octet a x h = ground (arith, h.h0, h.h1, h.h2, h.h3)

octet_range :
    (a : Ipv4Addr) (x y : ℕ)
    → IsOctets a
    → within x y a.o0 ≡ in_block (number a) (x * 16777216, y * 16777216 + 16777215)
octet_range a x y h = ground (arith, h.h0, h.h1, h.h2, h.h3)

two_octets :
    (a : Ipv4Addr) (x y z : ℕ)
    → IsOctets a
    → y < 256
    → z < 256
    → ((a.o0 == x) && within y z a.o1)
      ≡ in_block (number a) (x * 16777216 + y * 65536, x * 16777216 + z * 65536 + 65535)
two_octets a x y z h hy hz = ground (arith, h.h0, h.h1, h.h2, h.h3)

one_address :
    (a : Ipv4Addr) (x : ℕ)
    → IsOctets a
    → x < 256
    → ((a.o0 == x) && (a.o1 == x) && (a.o2 == x) && (a.o3 == x))
      ≡ in_block (number a) (x * 16843009, x * 16843009)
one_address a x h hx = ground (arith, h.h0, h.h1, h.h2, h.h3)

point : (x y : ℕ) → (x == y) ≡ within y y x
point x y = ground arith

-- The order of the tests does not matter to whether one of them holds.
or_chain :
    (l u k p₁ p₂ p₃ m b c : Bool)
    → is_some (
        if l
        then some loopback
        else (if u
            then some unspecified
            else (if k
                then some link_local
                else (if p₁ || p₂ || p₃
                    then some private_range
                    else (if m || b then some multicast else (if c then some cgnat else none))))))
      ≡ (l || (u || (k || (p₁ || (p₂ || (p₃ || (m || (b || (c || false)))))))))
or_chain l u k p₁ p₂ p₃ m b c = ground arith

infixr 5 ◌or◌
◌or◌ : {x x' y y' : Bool} → x ≡ x' → y ≡ y' → (x || y) ≡ (x' || y')
p or q = cc

-- An IPv4 address is refused exactly where its number lies in one of the forbidden blocks.
pub blocked_v4_iff_forbidden :
    (a : Ipv4Addr) → IsOctets a → is_some (blocked_v4 a) ≡ in_any (number a) forbidden
unfolding blocked_v4
blocked_v4_iff_forbidden a h =
    or_chain (is_loopback a) (is_unspecified a) (is_link_local a) (a.o0 == 10)
      ((a.o0 == 172) && within 16 31 a.o1) ((a.o0 == 192) && (a.o1 == 168)) (is_multicast a)
      (is_broadcast a) ((a.o0 == 100) && within 64 127 a.o1)
    ∙ (one_octet a 127 h
        or one_address a 0 h (omega arith)
        or (ap (λ t. (a.o0 == 169) && t) (point a.o1 254)
            ∙ two_octets a 169 254 254 h (omega arith) (omega arith))
        or one_octet a 10 h
        or two_octets a 172 16 31 h (omega arith) (omega arith)
        or (ap (λ t. (a.o0 == 192) && t) (point a.o1 168)
            ∙ two_octets a 192 168 168 h (omega arith) (omega arith))
        or octet_range a 224 239 h
        or one_address a 255 h (omega arith)
        or two_octets a 100 64 127 h (omega arith) (omega arith)
        or refl)
