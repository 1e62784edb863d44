-- ===== src/Ssrf.antt =====
-- internal/ssrf/guard.go: the addresses. An address is the number of its 16 bytes, as `net.IP.To16` has
-- them; an IPv4 address stands at ::ffff:0:0. `net.IPNet.Contains` is modelled as documented.
pub mod Guard
pub mod Carried
pub mod Public
pub mod Reached
pub mod Tests
use rssam.Common.{
  ℕ, ◌+◌, ◌-◌, ◌*◌, ◌/◌, ◌%◌, ◌^◌, Bool, true, false, not, ◌&&◌, ◌||◌, Option, none, some, List, [],
  ◌∷◌, ◌++◌, if◌then◌else◌, ◌==◌,
}

abbrev pub Ip : Type 0
Ip = ℕ

-- `net.IPv4`
abbrev pub v4_mapped : ℕ → Ip
v4_mapped v = 0xffff * 2 ^ 32 + v

-- `ip.To4()`; `none` is nil.
unfoldable pub to4 : Ip → Option ℕ
to4 ip = if ip / 2 ^ 32 == 0xffff then some (ip % 2 ^ 32) else none

-- A network: whether its address has 4 bytes, the address, and how many bits the mask leaves out.
pub record IpNet : Type 0 where
  pub is_v4 : Bool
  pub number : ℕ
  pub host_bits : ℕ

abbrev pub same_prefix : IpNet → ℕ → Bool
same_prefix n x = x / 2 ^ n.host_bits == n.number / 2 ^ n.host_bits

abbrev contains_form : IpNet → Ip → Option ℕ → Bool
contains_form n ip none = not n.is_v4 && same_prefix n ip
contains_form n ip (some x) = n.is_v4 && same_prefix n x

unfoldable pub net_contains : IpNet → Ip → Bool
net_contains n ip = contains_form n ip (to4 ip)

abbrev pub v4_net : ℕ → ℕ → ℕ → ℕ → IpNet
v4_net a b c bits = record {
  is_v4 = true;
  number = (a * 256 + b) * 2 ^ 16 + c * 256;
  host_bits = 32 - bits;
}

-- `top` is the first 32 bits.
abbrev pub v6_net : ℕ → ℕ → IpNet
v6_net top bits = record { is_v4 = false; number = top * 2 ^ 96; host_bits = 128 - bits }

-- The networks of IPv4 that are blocked, and those of IPv6.
abbrev pub blocked_v4 : List IpNet
blocked_v4 =
    v4_net 10 0 0 8
    ∷ v4_net 172 16 0 12
    ∷ v4_net 192 168 0 16
    ∷ v4_net 127 0 0 8
    ∷ v4_net 169 254 0 16
    ∷ v4_net 100 64 0 10
    ∷ v4_net 0 0 0 8
    ∷ v4_net 192 0 0 24
    ∷ v4_net 192 0 2 24
    ∷ v4_net 198 18 0 15
    ∷ v4_net 198 51 100 24
    ∷ v4_net 203 0 113 24
    ∷ v4_net 224 0 0 4
    ∷ v4_net 240 0 0 4
    ∷ []

abbrev pub blocked_v6 : List IpNet
blocked_v6 =
    v6_net 0 128
    ∷ record { is_v4 = false; number = 1; host_bits = 0 }
    ∷ v6_net 0x01000000 64
    ∷ v6_net 0x20010db8 32
    ∷ v6_net 0xfc000000 7
    ∷ v6_net 0xfe800000 10
    ∷ v6_net 0xff000000 8
    ∷ []

-- `defaultBlockedCIDRs`, in their order.
abbrev pub default_blocked : List IpNet
default_blocked = blocked_v4 ++ blocked_v6

abbrev pub nat64_prefix : IpNet
nat64_prefix = v6_net 0x0064ff9b 96

abbrev pub six_to_four : IpNet
six_to_four = v6_net 0x20020000 16

abbrev pub v4_compat : IpNet
v4_compat = v6_net 0 96

-- What `embeddedIPv4` finds in an address that is not IPv4.
abbrev embedded_in : Ip → Option Ip
embedded_in ip =
    if net_contains nat64_prefix ip || net_contains v4_compat ip
    then some (v4_mapped (ip % 2 ^ 32))
    else if net_contains six_to_four ip
    then some (v4_mapped (ip / 2 ^ 80 % 2 ^ 32))
    else none

abbrev unless_v4 : Ip → Option ℕ → Option Ip
unless_v4 ip none = embedded_in ip
unless_v4 ip (some x) = none

unfoldable pub embedded_ipv4 : Ip → Option Ip
embedded_ipv4 ip = unless_v4 ip (to4 ip)
