-- ===== src/Ssrf/Tests.antt =====
-- Addresses and URLs, and the theorems applied to them.
use rssam.Common.{
  ℕ, ◌+◌, ◌*◌, ◌^◌, ◌≡◌, ◌⊎◌, refl, true, false, Option, none, some, List, [], ◌∷◌, if◌then◌else◌,
  All,
}
use rssam.Common.Results.{err, ok}
use rssam.Common.Text.{Text, codes, text_eq, trim_space, to_lower, lower, has_prefix}
use rssam.Ssrf.{Ip, v4_mapped, to4, net_contains, default_blocked, embedded_ipv4}
use rssam.Ssrf.Guard.{
  Url, Network, SsrfConfig, Guard, SsrfError, normalize_host, parse_cidrs, normalize_hosts,
  new_guard, check_blocked_host, validate_ip, parse_ips, lookup_ips, validate_all, resolve_host,
  parse_url, validate_url, dial_targets, is_allowed_host, blocked_range, blocked_embedded,
  blocked_host,
}
use rssam.Ssrf.Public.{IsPublic}
use rssam.Ssrf.Reached.{is_web, validate_url-IsPublic}

guarded : Unit {0}
unfolding to4 net_contains embedded_ipv4 normalize_host parse_cidrs normalize_hosts new_guard
    check_blocked_host validate_ip parse_ips lookup_ips validate_all resolve_host parse_url
    validate_url dial_targets trim_space to_lower lower has_prefix
guarded = tt

abbrev guard : Guard
guard = record {
  allow_private = false;
  allowed_nets = [];
  blocked_nets = default_blocked;
  blocked_hosts = codes "db" ∷ [];
  allowed_hosts = codes "proxy" ∷ [];
}

abbrev config : SsrfConfig
config = record {
  allow_private_network = false;
  allowed_cidrs = [];
  blocked_hosts = codes "DB." ∷ codes " " ∷ [];
  allowed_hosts = codes "proxy" ∷ [];
}

abbrev v4 : ℕ → ℕ → ℕ → ℕ → ℕ
v4 a b c d = ((a * 256 + b) * 256 + c) * 256 + d

-- The resolver knows three names.
abbrev lookup : Text → Option (List Text)
lookup host =
    if text_eq host (codes "example.org")
    then some (codes "public" ∷ codes "junk" ∷ [])
    else if text_eq host (codes "evil.example")
    then some (codes "public" ∷ codes "tunnel" ∷ [])
    else if text_eq host (codes "proxy")
    then some (codes "private" ∷ [])
    else none

abbrev parse : Text → Option Ip
parse s =
    if text_eq s (codes "public")
    then some (v4_mapped (v4 93 184 216 34))
    else if text_eq s (codes "private")
    then some (v4_mapped (v4 10 1 2 3))
    else if text_eq s (codes "tunnel")
    then some (0x2002 * 2 ^ 112 + v4 127 0 0 1 * 2 ^ 80 + 1)
    else none

abbrev url_of : Text → Option Url
url_of s =
    if text_eq s (codes "https://example.org/feed")
    then some (record { scheme = codes "https"; has_user = false; hostname = codes "example.org" })
    else none

abbrev network : Network
network = record {
  parse_url = url_of;
  parse_ip = parse;
  parse_cidr = λ s. none;
  lookup_host = lookup;
}

guard_runs :
    (new_guard network config ≡ ok guard)
    × (validate_ip guard (v4_mapped (v4 172 20 0 1))
        ≡ err (blocked_range (v4_mapped (v4 172 20 0 1))))
    × (validate_ip guard (v4_mapped (v4 172 32 0 1)) ≡ ok tt)
    × (resolve_host network guard (codes "evil.example")
        ≡ err (blocked_embedded (v4_mapped (v4 127 0 0 1))))
    × (resolve_host network guard (codes "Proxy.") ≡ err SsrfError.lookup_failed)
    × (resolve_host network guard (codes "proxy") ≡ ok (v4_mapped (v4 10 1 2 3) ∷ []))
    × (check_blocked_host guard (codes "[DB].") ≡ ok tt)
    × (check_blocked_host guard (codes "[DB]") ≡ err blocked_host)
    × (validate_url network guard (codes " https://example.org/feed") ≡ ok tt)
unfolding guarded
guard_runs = (refl, refl, refl, refl, refl, refl, refl, refl, refl)

validate_url-IsPublic_example :
    (u : Url) × (url_of (trim_space (codes "https://example.org/feed")) ≡ some u)
    × (is_web u ≡ true)
    × (u.has_user ≡ false)
    × (check_blocked_host guard u.hostname ≡ ok tt)
    × ((is_allowed_host guard u.hostname ≡ true)
        ⊎ ((ips : List Ip) × (resolve_host network guard u.hostname ≡ ok ips) × All IsPublic ips))
unfolding guarded
validate_url-IsPublic_example =
    validate_url-IsPublic network config guard (codes "https://example.org/feed") refl refl refl
      refl
