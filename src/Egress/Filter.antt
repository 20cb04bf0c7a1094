-- ===== src/Egress/Filter.antt =====
-- crates/rollout-harness-tool/src/http/connector.rs: which resolved addresses may be connected to.
-- An IPv4 address is its four octets and an IPv6 address its eight segments.
use rollout.Prelude.{
  ℕ, ◌-◌, ◌/◌, ◌%◌, ◌==◌, leb, Bool, true, false, not, ◌&&◌, ◌||◌, List, [], ◌∷◌, Option, none,
  some, if◌then◌else◌,
}

pub data BlockReason : Type 0 where
  private_range : BlockReason
  cgnat : BlockReason
  link_local : BlockReason
  loopback : BlockReason
  ipv6_link_local : BlockReason
  ipv6_unique_local : BlockReason
  multicast : BlockReason
  unspecified : BlockReason
  mapped_v4 : BlockReason
  not_allowlisted : BlockReason

pub record Ipv4Addr : Type 0 where
  pub o0 : ℕ
  pub o1 : ℕ
  pub o2 : ℕ
  pub o3 : ℕ

pub record Ipv6Addr : Type 0 where
  pub s0 : ℕ
  pub s1 : ℕ
  pub s2 : ℕ
  pub s3 : ℕ
  pub s4 : ℕ
  pub s5 : ℕ
  pub s6 : ℕ
  pub s7 : ℕ

pub data IpAddr : Type 0 where
  v4 : Ipv4Addr → IpAddr
  v6 : Ipv6Addr → IpAddr

-- `(lo..=hi).contains(&x)`
abbrev pub within : ℕ → ℕ → ℕ → Bool
within lo hi x = leb lo x && leb x hi

-- The tests of `std::net::Ipv4Addr` that the filter calls.
abbrev pub is_loopback : Ipv4Addr → Bool
is_loopback a = a.o0 == 127

abbrev pub is_unspecified : Ipv4Addr → Bool
is_unspecified a = (a.o0 == 0) && (a.o1 == 0) && (a.o2 == 0) && (a.o3 == 0)

abbrev pub is_link_local : Ipv4Addr → Bool
is_link_local a = (a.o0 == 169) && (a.o1 == 254)

abbrev pub is_private : Ipv4Addr → Bool
is_private a =
    (a.o0 == 10) || ((a.o0 == 172) && within 16 31 a.o1) || ((a.o0 == 192) && (a.o1 == 168))

abbrev pub is_multicast : Ipv4Addr → Bool
is_multicast a = within 224 239 a.o0

abbrev pub is_broadcast : Ipv4Addr → Bool
is_broadcast a = (a.o0 == 255) && (a.o1 == 255) && (a.o2 == 255) && (a.o3 == 255)

unfoldable pub blocked_v4 : Ipv4Addr → Option BlockReason
blocked_v4 a =
    if is_loopback a
    then some loopback
    else (if is_unspecified a
        then some unspecified
        else (if is_link_local a
            then some link_local
            else (if is_private a
                then some private_range
                else (if is_multicast a || is_broadcast a
                    then some multicast
                    else (if (a.o0 == 100) && within 64 127 a.o1 then some cgnat else none)))))

-- `s & mask`, where the mask of 16 bits clears the bits below one of them: the multiple of `unit` below.
abbrev pub clear_below : ℕ → ℕ → ℕ
clear_below unit s = s - s % unit

abbrev pub first_seven_zero : Ipv6Addr → Bool
first_seven_zero a =
    (a.s0 == 0)
    && (a.s1 == 0)
    && (a.s2 == 0)
    && (a.s3 == 0)
    && (a.s4 == 0)
    && (a.s5 == 0)
    && (a.s6 == 0)

unfoldable pub blocked_v6 : Ipv6Addr → Option BlockReason
blocked_v6 a =
    if first_seven_zero a && (a.s7 == 1)
    then some loopback
    else (if first_seven_zero a && (a.s7 == 0)
        then some unspecified
        else (if clear_below 256 a.s0 == 65280
            then some multicast
            else (if clear_below 64 a.s0 == 65152
                then some ipv6_link_local
                else (if clear_below 512 a.s0 == 64512 then some ipv6_unique_local else none))))

-- `Ipv6Addr::to_ipv4`: of `::a.b.c.d` and of `::ffff:a.b.c.d`.
unfoldable pub to_ipv4 : Ipv6Addr → Option Ipv4Addr
to_ipv4 a =
    if (a.s0 == 0)
      && (a.s1 == 0)
      && (a.s2 == 0)
      && (a.s3 == 0)
      && (a.s4 == 0)
      && ((a.s5 == 0) || (a.s5 == 65535))
    then some (record { o0 = a.s6 / 256; o1 = a.s6 % 256; o2 = a.s7 / 256; o3 = a.s7 % 256 })
    else none

-- `to_ipv4().is_some_and(|v4| blocked_v4(v4).is_some())`
abbrev pub wraps_blocked : Option Ipv4Addr → Bool
wraps_blocked none = false
wraps_blocked (some a) = elim (blocked_v4 a) [ none ↦ false | some r ↦ true ]

unfoldable pub blocked_range : IpAddr → Option BlockReason
unfolding blocked_v4 blocked_v6 to_ipv4
blocked_range (v4 a) = blocked_v4 a
blocked_range (v6 a) = if wraps_blocked (to_ipv4 a) then some mapped_v4 else blocked_v6 a

abbrev pub v4_eq : Ipv4Addr → Ipv4Addr → Bool
v4_eq a b = (a.o0 == b.o0) && (a.o1 == b.o1) && (a.o2 == b.o2) && (a.o3 == b.o3)

abbrev pub v6_eq : Ipv6Addr → Ipv6Addr → Bool
v6_eq a b =
    (a.s0 == b.s0)
    && (a.s1 == b.s1)
    && (a.s2 == b.s2)
    && (a.s3 == b.s3)
    && (a.s4 == b.s4)
    && (a.s5 == b.s5)
    && (a.s6 == b.s6)
    && (a.s7 == b.s7)

abbrev pub ip_eq : IpAddr → IpAddr → Bool
ip_eq (v4 a) (v4 b) = v4_eq a b
ip_eq (v6 a) (v6 b) = v6_eq a b
ip_eq _ _ = false

abbrev pub listed : IpAddr → List IpAddr → Bool
listed ip [] = false
listed ip (a ∷ more) = ip_eq a ip || listed ip more

abbrev pub is_loopback_reason : BlockReason → Bool
is_loopback_reason loopback = true
is_loopback_reason _ = false

-- The gate of the allowlist: an empty one lets all through.
abbrev pub allowlist_gate : IpAddr → List IpAddr → Option BlockReason
allowlist_gate ip [] = none
allowlist_gate ip (a ∷ more) = if not (listed ip (a ∷ more)) then some not_allowlisted else none

unfoldable pub filter_ip : IpAddr → List IpAddr → Bool → Option BlockReason
unfolding blocked_range
filter_ip ip allowlist allow_loopback = elim (blocked_range ip) [
  | none ↦ allowlist_gate ip allowlist
  | some reason ↦
      if allow_loopback && is_loopback_reason reason
      then allowlist_gate ip allowlist
      else some reason
]

-- `Result<IpAddr, BlockReason>`
pub data Picked : Type 0 where
  picked : IpAddr → Picked
  all_blocked : BlockReason → Picked

unfoldable pub pick_from : BlockReason → List IpAddr → List IpAddr → Bool → Picked
unfolding filter_ip
pick_from last [] allowlist allow_loopback = all_blocked last
pick_from last (ip ∷ ips) allowlist allow_loopback = elim (filter_ip ip allowlist allow_loopback) [
  | none ↦ picked ip
  | some r ↦ pick_from r ips allowlist allow_loopback
]

unfoldable pub pick_safe_ip : List IpAddr → List IpAddr → Bool → Picked
unfolding pick_from
pick_safe_ip ips allowlist allow_loopback = pick_from unspecified ips allowlist allow_loopback
