-- ===== src/Ssrf/Carried.antt =====
-- The IPv4 address that an address carries, and what the default networks block of it.
use rssam.Common.{
  ℕ, ◌+◌, ◌*◌, ◌/◌, ◌%◌, ◌^◌, ◌<◌, ◌≡◌, refl, sym, ◌∙◌, Bool, false, ◌&&◌, ◌||◌, some, List, [],
  ◌∷◌, ◌==◌, leb, any, arith,
}
use rssam.Ssrf.{
  Ip, v4_mapped, to4, IpNet, same_prefix, net_contains, default_blocked, embedded_ipv4,
}

-- The forms in which an address stands for an IPv4 address: itself, ::a.b.c.d, 64:ff9b::a.b.c.d, and
-- 2002:aabb:ccdd:: with anything behind it.
pub data Carries (ip : Ip) (v : ℕ) : Type 0 where
  mapped : ip ≡ v4_mapped v → Carries ip v
  compatible : ip ≡ v → Carries ip v
  translated : ip ≡ 0x0064ff9b * 2 ^ 96 + v → Carries ip v
  tunnelled : (rest : ℕ) → rest < 2 ^ 80 → ip ≡ 0x2002 * 2 ^ 112 + v * 2 ^ 80 + rest → Carries ip v

pub to4-mapped : (v : ℕ) → v < 2 ^ 32 → to4 (v4_mapped v) ≡ some v
unfolding to4
to4-mapped v h = ground arith

pub embedded-compatible : (v : ℕ) → v < 2 ^ 32 → embedded_ipv4 v ≡ some (v4_mapped v)
unfolding embedded_ipv4 to4 net_contains
embedded-compatible v h = ground arith

pub embedded-translated :
    (v : ℕ) → v < 2 ^ 32 → embedded_ipv4 (0x0064ff9b * 2 ^ 96 + v) ≡ some (v4_mapped v)
unfolding embedded_ipv4 to4 net_contains
embedded-translated v h = ground arith

pub embedded-tunnelled :
    (v rest : ℕ)
    → v < 2 ^ 32
    → rest < 2 ^ 80
    → embedded_ipv4 (0x2002 * 2 ^ 112 + v * 2 ^ 80 + rest) ≡ some (v4_mapped v)
unfolding embedded_ipv4 to4 net_contains
embedded-tunnelled v rest h k = ground arith

-- The octets of the addresses that no request may reach.
abbrev pub is_private : ℕ → Bool
is_private v =
    let a = v / 2 ^ 24 in
    let b = v / 2 ^ 16 % 256 in
    let c = v / 2 ^ 8 % 256 in
    a == 0
    || a == 10
    || a == 127
    || leb 224 a
    || a == 172 && leb 16 b && leb b 31
    || a == 192 && b == 168
    || a == 169 && b == 254
    || a == 100 && leb 64 b && leb b 127
    || a == 192 && b == 0 && (c == 0 || c == 2)
    || a == 198 && (b == 18 || b == 19 || b == 51 && c == 100)
    || a == 203 && b == 0 && c == 113

net_contains-mapped :
    (n : IpNet) (v : ℕ) → v < 2 ^ 32 → net_contains n (v4_mapped v) ≡ n.is_v4 && same_prefix n v
unfolding net_contains
net_contains-mapped n v h = rw (to4-mapped v h) refl

-- Whether a network of IPv4 net_contains an address of 4 bytes.
abbrev pub contains_v4 : ℕ → List IpNet → Bool
contains_v4 v nets = any (λ n. n.is_v4 && same_prefix n v) nets

any_mapped :
    (v : ℕ) (nets : List IpNet)
    → v < 2 ^ 32
    → any (λ n. net_contains n (v4_mapped v)) nets ≡ contains_v4 v nets
any_mapped v [] h = refl
any_mapped v (n ∷ nets) h = rw (net_contains-mapped n v h, any_mapped v nets h) refl

private_of_blocked :
    (v : ℕ) → v < 2 ^ 32 → contains_v4 v default_blocked ≡ false → is_private v ≡ false
private_of_blocked v h blocked = ground arith

-- An IPv4 address that no default network net_contains is not private.
pub is_private-blocked :
    (v : ℕ)
    → v < 2 ^ 32
    → any (λ n. net_contains n (v4_mapped v)) default_blocked ≡ false
    → is_private v ≡ false
is_private-blocked v h blocked =
    private_of_blocked v h (sym (any_mapped v default_blocked h) ∙ blocked)
