-- ===== src/Ssrf/Public.antt =====
-- What the guard lets through is public.
use rssam.Common.{
  ◌/◌, ◌==◌, ◌&&◌, ◌||◌, leb, arith, ℕ, ◌^◌, ◌<◌, ◌≡◌, refl, sym, ap, ◌∙◌, Bool, true, false, some,
  [], if◌then◌else◌,
}
use rssam.Common.Results.{Result, err, ok}
use rssam.Ssrf.{Ip, net_contains, to4, v4_mapped, default_blocked, embedded_ipv4}
use rssam.Ssrf.Guard.{Guard, SsrfError, in_nets, check_embedded, validate_ip}
use rssam.Ssrf.Carried.{
  Carries, mapped, compatible, translated, tunnelled, embedded-compatible, embedded-translated,
  embedded-tunnelled, is_private, is_private-blocked,
}

-- The addresses of IPv6 that no request may reach: ::, ::1, the discard prefix 100::/64, the
-- documentation prefix 2001:db8::/32, and by their first group the unique local (fc00 to fdff), the
-- link-local (fe80 to febf) and the multicast addresses (from ff00).
abbrev pub is_private_v6 : Ip → Bool
is_private_v6 ip =
    let group = ip / 2 ^ 112 in
    ip == 0
    || ip == 1
    || ip / 2 ^ 64 == 0x0100000000000000
    || ip / 2 ^ 96 == 0x20010db8
    || leb 0xfc00 group && leb group 0xfdff
    || leb 0xfe80 group && leb group 0xfebf
    || leb 0xff00 group && leb group 0xffff

-- No IPv4 address that the address carries is private, and it is no private address of IPv6.
abbrev pub IsPublic : Ip → Type 0
IsPublic ip =
    ((v : ℕ) → v < 2 ^ 32 → Carries ip v → is_private v ≡ false) × (is_private_v6 ip ≡ false)

-- Outside the default networks no address of IPv6 is private.
is_private_v6-blocked : (ip : Ip) → in_nets ip default_blocked ≡ false → is_private_v6 ip ≡ false
unfolding net_contains to4
is_private_v6-blocked ip h = ground arith

-- A guard that makes no exceptions for addresses.
abbrev pub IsStrict : Guard → Type 0
IsStrict g = (g.allow_private ≡ false) × (g.allowed_nets ≡ []) × (g.blocked_nets ≡ default_blocked)

-- The two checks that passed.
passed_checks :
    (allow allowed blocked : Bool) (why : SsrfError) (rest : Result SsrfError (Unit {0}))
    → allow ≡ false
    → allowed ≡ false
    → (if allow then ok tt else if allowed then ok tt else if blocked then err why else rest)
      ≡ ok tt
    → (blocked ≡ false) × (rest ≡ ok tt)
passed_checks true allowed blocked why rest h k passed = cc
passed_checks false true blocked why rest h k passed = cc
passed_checks false false true why rest h k passed = cc
passed_checks false false false why rest h k passed = (refl, passed)

validate_ip-checks :
    (g : Guard) (ip : Ip)
    → IsStrict g
    → validate_ip g ip ≡ ok tt
    → (in_nets ip g.blocked_nets ≡ false) × (check_embedded g (embedded_ipv4 ip) ≡ ok tt)
unfolding validate_ip
validate_ip-checks g ip strict passed =
    passed_checks g.allow_private (in_nets ip g.allowed_nets) (in_nets ip g.blocked_nets) _ _
      strict.0 (ap (in_nets ip) strict.1) passed

validate_ip-blocked :
    (g : Guard) (ip : Ip)
    → IsStrict g
    → validate_ip g ip ≡ ok tt
    → in_nets ip default_blocked ≡ false
validate_ip-blocked g ip strict passed =
    ap (in_nets ip) (sym strict.2) ∙ (validate_ip-checks g ip strict passed).0

embedded_passed :
    (blocked : Bool) (why : SsrfError)
    → ◌≡◌ {A = Result SsrfError (Unit {0})} (if blocked then err why else ok tt) (ok tt)
    → blocked ≡ false
embedded_passed true why h = cc
embedded_passed false why h = refl

validate_ip-embedded :
    (g : Guard) (ip inner : Ip)
    → IsStrict g
    → validate_ip g ip ≡ ok tt
    → embedded_ipv4 ip ≡ some inner
    → in_nets inner default_blocked ≡ false
validate_ip-embedded g ip inner strict passed carried =
    ap (in_nets inner) (sym strict.2)
    ∙ embedded_passed (in_nets inner g.blocked_nets) _
        (ap (check_embedded g) (sym carried) ∙ (validate_ip-checks g ip strict passed).1)

carried_public :
    (g : Guard) (ip : Ip)
    → IsStrict g
    → validate_ip g ip ≡ ok tt
    → (v : ℕ) → v < 2 ^ 32
    → Carries ip v
    → is_private v ≡ false
carried_public g ip strict passed v h (mapped e) =
    is_private-blocked v h (rw (← e) (validate_ip-blocked g ip strict passed))
carried_public g ip strict passed v h (compatible e) =
    is_private-blocked v h
      (validate_ip-embedded g ip (v4_mapped v) strict passed (rw e (embedded-compatible v h)))
carried_public g ip strict passed v h (translated e) =
    is_private-blocked v h
      (validate_ip-embedded g ip (v4_mapped v) strict passed (rw e (embedded-translated v h)))
carried_public g ip strict passed v h (tunnelled rest k e) =
    is_private-blocked v h
      (validate_ip-embedded g ip (v4_mapped v) strict passed (rw e (embedded-tunnelled v rest h k)))

-- Without exceptions in the settings, an address that passes carries no private IPv4 address, be it as
-- it is or in an IPv4-compatible, NAT64 or 6to4 address, and is no private address of IPv6.
pub validate_ip-IsPublic :
    (g : Guard) (ip : Ip) → IsStrict g → validate_ip g ip ≡ ok tt → IsPublic ip
validate_ip-IsPublic g ip strict passed = (
  carried_public g ip strict passed,
  is_private_v6-blocked ip (validate_ip-blocked g ip strict passed),
)
