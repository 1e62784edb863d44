-- ===== src/Ssrf/Reached.antt =====
-- The hosts that are let through resolve to public addresses.
use rssam.Common.{
  ◌≡◌, ◌⊎◌, refl, sym, ap, ◌∙◌, Bool, true, false, not, ◌||◌, Option, none, some, List, [], ◌∷◌,
  if◌then◌else◌, null, All, Bool-cases, inl, inr,
}
use rssam.Common.Results.{Result, err, ok, ◌>>=◌, >>=-eq-ok}
use rssam.Common.Text.{Text, codes, text_eq, trim_space, to_lower}
use rssam.Ssrf.{Ip, IpNet}
use rssam.Ssrf.Guard.{
  Url, Network, SsrfConfig, Guard, SsrfError, is_member, is_allowed_host, check_blocked_host,
  validate_ip, lookup_ips, validate_all, resolve_host, parse_url, validate_url, dial_targets,
  new_guard, parse_cidrs, checked_url, invalid_url, bad_scheme, has_userinfo, empty_hostname,
  empty_url,
}
use rssam.Ssrf.Public.{IsPublic, IsStrict, validate_ip-IsPublic}

validate_all-All :
    (g : Guard) (ips : List Ip)
    → validate_all g ips ≡ ok tt
    → All (λ ip. validate_ip g ip ≡ ok tt) ips
unfolding validate_all
validate_all-All g [] h = tt
validate_all-All g (ip ∷ ips) h =
    let (u, rest, first) = >>=-eq-ok (λ u. validate_all g ips) (validate_ip g ip) h in
    (first, validate_all-All g ips rest)

All-IsPublic :
    (g : Guard) (ips : List Ip)
    → IsStrict g
    → All (λ ip. validate_ip g ip ≡ ok tt) ips
    → All IsPublic ips
All-IsPublic g [] strict h = tt
All-IsPublic g (ip ∷ ips) strict h =
    (validate_ip-IsPublic g ip strict h.0, All-IsPublic g ips strict h.1)

ok_same : (a b : List Ip) → ◌≡◌ {A = Result SsrfError (List Ip)} (ok a) (ok b) → a ≡ b
ok_same a b h = cc

-- The addresses that a host resolves to are public, unless the host is an allowed one.
resolve_host-IsPublic :
    (net : Network) (g : Guard) (host : Text) (ips : List Ip)
    → IsStrict g
    → is_allowed_host g host ≡ false
    → resolve_host net g host ≡ ok ips
    → All IsPublic ips
unfolding resolve_host
resolve_host-IsPublic net g host ips strict not_allowed h =
    let (u, h1, checked) = >>=-eq-ok _ (check_blocked_host g host) h in
    let (found, h2, looked) = >>=-eq-ok _ (lookup_ips net host) h1 in
    let (v, same, validated) =
      >>=-eq-ok (λ v. ok found) (validate_all g found) (simp not_allowed at h2) in
    rw (← ok_same found ips same) (All-IsPublic g found strict (validate_all-All g found validated))

guard_same : (a b : Guard) → ◌≡◌ {A = Result SsrfError Guard} (ok a) (ok b) → a ≡ b
guard_same a b h = cc

no_nets :
    (nets : List IpNet) → ◌≡◌ {A = Result SsrfError (List IpNet)} (ok []) (ok nets) → nets ≡ []
no_nets nets h = cc

IsStrict-new_guard :
    (net : Network) (cfg : SsrfConfig) (g : Guard)
    → cfg.allow_private_network ≡ false
    → cfg.allowed_cidrs ≡ []
    → new_guard net cfg ≡ ok g
    → IsStrict g
unfolding new_guard parse_cidrs
IsStrict-new_guard net cfg g h k made =
    let (nets, built, parsed) = >>=-eq-ok _ (parse_cidrs net cfg.allowed_cidrs) made in
    let e = guard_same _ g built in
    (
      ap (λ x. x.allow_private) (sym e) ∙ h,
      ap (λ x. x.allowed_nets) (sym e) ∙ no_nets nets (ap (parse_cidrs net) (sym k) ∙ parsed),
      ap (λ x. x.blocked_nets) (sym e),
    )

-- With no private network and no networks allowed in the settings, every address that a connection
-- tries is public, unless the host is one of the proxies or an allowed one.
pub dial_targets-IsPublic :
    (net : Network) (cfg : SsrfConfig) (g : Guard) (proxy_hosts : List Text) (host : Text)
    (ips : List Ip)
    → cfg.allow_private_network ≡ false
    → cfg.allowed_cidrs ≡ []
    → new_guard net cfg ≡ ok g
    → is_member (to_lower host) proxy_hosts ≡ false
    → is_allowed_host g host ≡ false
    → dial_targets net g proxy_hosts host ≡ ok ips
    → All IsPublic ips
unfolding dial_targets
dial_targets-IsPublic net cfg g proxy_hosts host ips h k made direct strict dialled =
    resolve_host-IsPublic net g host ips (IsStrict-new_guard net cfg g h k made) strict
      (simp direct at dialled)

url_checks :
    (good user empty : Bool) (check : Result SsrfError (Unit {0})) (p u : Url)
    → ◌≡◌ {A = Result SsrfError Url}
        (if not good
          then err bad_scheme
          else if user
          then err has_userinfo
          else if empty
          then err empty_hostname
          else check >>= (λ v. ok p))
        (ok u)
    → (good ≡ true) × (user ≡ false) × (check ≡ ok tt) × (p ≡ u)
url_checks false user empty check p u h = cc
url_checks true true empty check p u h = cc
url_checks true false true check p u h = cc
url_checks true false false (err why) p u h = cc
url_checks true false false (ok v) p u h = (refl, refl, refl, cc)

abbrev pub is_web : Url → Bool
is_web u = text_eq u.scheme (codes "http") || text_eq u.scheme (codes "https")

checked_url_lem :
    (g : Guard) (o : Option Url) (u : Url)
    → elim o [ none ↦ err invalid_url | some u ↦ checked_url g u ] ≡ ok u
    → (o ≡ some u)
      × (is_web u ≡ true)
      × (u.has_user ≡ false)
      × (check_blocked_host g u.hostname ≡ ok tt)
checked_url_lem g none u h = cc
checked_url_lem g (some p) u h =
    let (web, plain, checked, same) =
      url_checks (is_web p) p.has_user (null p.hostname) (check_blocked_host g p.hostname) p u h in
    (
      ap some same,
      ap is_web (sym same) ∙ web,
      ap (λ x. x.has_user) (sym same) ∙ plain,
      ap (λ x. check_blocked_host g x.hostname) (sym same) ∙ checked,
    )

parse_url_lem :
    (net : Network) (g : Guard) (raw : Text) (u : Url)
    → parse_url net g raw ≡ ok u
    → (net.parse_url (trim_space raw) ≡ some u)
      × (is_web u ≡ true)
      × (u.has_user ≡ false)
      × (check_blocked_host g u.hostname ≡ ok tt)
unfolding parse_url
parse_url_lem net g raw u h =
    checked_url_lem g (net.parse_url (trim_space raw)) u (not_empty (null (trim_space raw)) _ h)
  where
    not_empty :
        (empty : Bool) (rest : Result SsrfError Url)
        → ◌≡◌ {A = Result SsrfError Url} (if empty then err empty_url else rest) (ok u)
        → rest ≡ ok u
    not_empty true rest e = cc
    not_empty false rest e = e

-- A URL that is let through parses, has the scheme http or https and no user information, and its host
-- is not blocked; without exceptions for addresses in the settings, the host is an allowed one, or it
-- resolves to addresses that are all public.
pub validate_url-IsPublic :
    (net : Network) (cfg : SsrfConfig) (g : Guard) (raw : Text)
    → cfg.allow_private_network ≡ false
    → cfg.allowed_cidrs ≡ []
    → new_guard net cfg ≡ ok g
    → validate_url net g raw ≡ ok tt
    → (u : Url) × (net.parse_url (trim_space raw) ≡ some u)
      × (is_web u ≡ true)
      × (u.has_user ≡ false)
      × (check_blocked_host g u.hostname ≡ ok tt)
      × ((is_allowed_host g u.hostname ≡ true)
          ⊎ ((ips : List Ip) × (resolve_host net g u.hostname ≡ ok ips) × All IsPublic ips))
unfolding validate_url
validate_url-IsPublic net cfg g raw h k made valid =
    let (u, found, parsed) = >>=-eq-ok _ (parse_url net g raw) valid in
    let (ips, done, looked) = >>=-eq-ok _ (resolve_host net g u.hostname) found in
    let (same, web, plain, checked) = parse_url_lem net g raw u parsed in
    (
      u,
      same,
      web,
      plain,
      checked,
      elim (Bool-cases (is_allowed_host g u.hostname)) [
        | inl allowed ↦ inl allowed
        | inr strict ↦ inr (
          ips,
          looked,
          resolve_host-IsPublic net g u.hostname ips (IsStrict-new_guard net cfg g h k made) strict
              looked,
        )
      ],
    )
