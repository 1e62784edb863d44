-- ===== src/Ssrf/Guard.antt =====
-- `Guard` of internal/ssrf/guard.go and `dialContext` of transport.go: which URLs and addresses are let
-- through. net/url, net.ParseIP, net.ParseCIDR and the resolver are parameters.
use rssam.Common.{
  ℕ, Bool, not, ◌&&◌, ◌||◌, Option, none, some, List, [], ◌∷◌, if◌then◌else◌, null, any, drop,
}
use rssam.Common.Results.{Result, err, ok, ◌>>=◌}
use rssam.Common.Text.{Text, codes, text_eq, trim_space, to_lower, has_prefix}
use mathlib.Core.List.{reverse}
use rssam.Ssrf.{Ip, IpNet, net_contains, default_blocked, embedded_ipv4}

-- The parts of a parsed URL.
pub record Url : Type 0 where
  pub scheme : Text
  pub has_user : Bool
  pub hostname : Text

pub record Network : Type 0 where
  pub parse_url : Text → Option Url
  pub parse_ip : Text → Option Ip
  pub parse_cidr : Text → Option IpNet
  pub lookup_host : Text → Option (List Text)

pub record SsrfConfig : Type 0 where
  pub allow_private_network : Bool
  pub allowed_cidrs : List Text
  pub blocked_hosts : List Text
  pub allowed_hosts : List Text

pub record Guard : Type 0 where
  pub allow_private : Bool
  pub allowed_nets : List IpNet
  pub blocked_nets : List IpNet
  pub blocked_hosts : List Text
  pub allowed_hosts : List Text

pub data SsrfError : Type 0 where
  bad_cidr : Text → SsrfError
  empty_url : SsrfError
  invalid_url : SsrfError
  bad_scheme : SsrfError
  has_userinfo : SsrfError
  empty_hostname : SsrfError
  blocked_host : SsrfError
  lookup_failed : SsrfError
  no_addresses : SsrfError
  no_valid_addresses : SsrfError
  blocked_range : Ip → SsrfError
  blocked_embedded : Ip → SsrfError

abbrev pub last_is : ℕ → Text → Bool
last_is c s = has_prefix (reverse s) (c ∷ [])

-- `strings.TrimSuffix` for one byte.
abbrev pub trim_last : ℕ → Text → Text
trim_last c s = if last_is c s then reverse (drop 1 (reverse s)) else s

abbrev unbracketed : Text → Text
unbracketed s = if has_prefix s (codes "[") && last_is b']' s then drop 1 (trim_last b']' s) else s

unfoldable pub normalize_host : Text → Text
normalize_host host =
    let s = trim_space (to_lower host) in if null s then [] else trim_last b'.' (unbracketed s)

abbrev pub is_member : Text → List Text → Bool
is_member host hosts = any (λ h. text_eq h host) hosts

-- The loops of `New` over the CIDRs and the hosts.
unfoldable pub parse_cidrs : Network → List Text → Result SsrfError (List IpNet)
parse_cidrs net [] = ok []
parse_cidrs net (cidr ∷ cidrs) =
    let rest = parse_cidrs net cidrs in
    let c = trim_space cidr in
    if null c
    then rest
    else elim (net.parse_cidr c) [ none ↦ err (bad_cidr c) | some n ↦ rest >>= (λ ns. ok (n ∷ ns)) ]

unfoldable pub normalize_hosts : List Text → List Text
normalize_hosts [] = []
normalize_hosts (h ∷ hs) =
    let rest = normalize_hosts hs in
    if null (normalize_host h) then rest else normalize_host h ∷ rest

unfoldable pub new_guard : Network → SsrfConfig → Result SsrfError Guard
new_guard net cfg = do
  allowed ← parse_cidrs net cfg.allowed_cidrs
  ok (record {
    allow_private = cfg.allow_private_network;
    allowed_nets = allowed;
    blocked_nets = default_blocked;
    blocked_hosts = normalize_hosts cfg.blocked_hosts;
    allowed_hosts = normalize_hosts cfg.allowed_hosts;
  })

abbrev pub is_allowed_host : Guard → Text → Bool
is_allowed_host g hostname = is_member (normalize_host hostname) g.allowed_hosts

unfoldable pub check_blocked_host : Guard → Text → Result SsrfError (Unit {0})
check_blocked_host g hostname =
    let host = normalize_host hostname in
    if null host
    then err empty_hostname
    else if is_member host g.allowed_hosts
    then ok tt
    else if is_member host g.blocked_hosts
    then err blocked_host
    else ok tt

abbrev pub in_nets : Ip → List IpNet → Bool
in_nets ip nets = any (λ n. net_contains n ip) nets

abbrev pub check_embedded : Guard → Option Ip → Result SsrfError (Unit {0})
check_embedded g none = ok tt
check_embedded g (some inner) =
    if in_nets inner g.blocked_nets then err (blocked_embedded inner) else ok tt

unfoldable pub validate_ip : Guard → Ip → Result SsrfError (Unit {0})
validate_ip g ip =
    if g.allow_private
    then ok tt
    else if in_nets ip g.allowed_nets
    then ok tt
    else if in_nets ip g.blocked_nets
    then err (blocked_range ip)
    else check_embedded g (embedded_ipv4 ip)

-- The addresses of the answers that parse.
unfoldable pub parse_ips : Network → List Text → List Ip
parse_ips net [] = []
parse_ips net (addr ∷ addrs) =
    let rest = parse_ips net addrs in elim (net.parse_ip addr) [ none ↦ rest | some ip ↦ ip ∷ rest ]

abbrev pub resolved : Network → Option (List Text) → Result SsrfError (List Ip)
resolved net none = err lookup_failed
resolved net (some addrs) =
    if null addrs
    then err no_addresses
    else if null (parse_ips net addrs)
    then err no_valid_addresses
    else ok (parse_ips net addrs)

unfoldable pub lookup_ips : Network → Text → Result SsrfError (List Ip)
lookup_ips net hostname = elim (net.parse_ip hostname) [
  | none ↦ resolved net (net.lookup_host hostname)
  | some ip ↦ ok (ip ∷ [])
]

unfoldable pub validate_all : Guard → List Ip → Result SsrfError (Unit {0})
validate_all g [] = ok tt
validate_all g (ip ∷ ips) = let rest = validate_all g ips in validate_ip g ip >>= (λ u. rest)

unfoldable pub resolve_host : Network → Guard → Text → Result SsrfError (List Ip)
resolve_host net g hostname = do
  u ← check_blocked_host g hostname
  ips ← lookup_ips net hostname
  if is_allowed_host g hostname then ok ips else (do v ← validate_all g ips; ok ips)

abbrev pub checked_url : Guard → Url → Result SsrfError Url
checked_url g u =
    if not (text_eq u.scheme (codes "http") || text_eq u.scheme (codes "https"))
    then err bad_scheme
    else if u.has_user
    then err has_userinfo
    else if null u.hostname
    then err empty_hostname
    else check_blocked_host g u.hostname >>= (λ v. ok u)

unfoldable pub parse_url : Network → Guard → Text → Result SsrfError Url
parse_url net g raw =
    let s = trim_space raw in
    if null s
    then err empty_url
    else elim (net.parse_url s) [ none ↦ err invalid_url | some u ↦ checked_url g u ]

unfoldable pub validate_url : Network → Guard → Text → Result SsrfError (Unit {0})
validate_url net g raw = do u ← parse_url net g raw; ips ← resolve_host net g u.hostname; ok tt

-- The addresses that `dialContext` tries, in order, for a host of an address that splits.
unfoldable pub dial_targets : Network → Guard → List Text → Text → Result SsrfError (List Ip)
dial_targets net g proxy_hosts host =
    if is_member (to_lower host) proxy_hosts then lookup_ips net host else resolve_host net g host
