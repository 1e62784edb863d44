-- ===== src/ClientAddress.antt =====
-- internal/http/middleware/clientip.go: the address of a client behind proxies. The addresses of
-- net/netip, net.SplitHostPort and the headers of a request are parameters.
pub mod Forwarded
pub mod Tests
use rssam.Common.{
  ℕ, Bool, true, false, not, ◌&&◌, ◌||◌, Option, none, some, List, [], ◌∷◌, if◌then◌else◌, null,
  any, ◌==◌,
}
use mathlib.Core.List.{reverse}
use rssam.Common.Text.{Text, codes, text_eq, trim_space, to_lower, split}

-- `ParseAddr`, `Unmap`, `String` and the test of a prefix, for addresses and prefixes of some kind;
-- `split_host_port` is the host of an address, none on an error.
pub record Netip (A : Type 0) (P : Type 0) : Type 0 where
  pub parse_addr : Text → Option A
  pub unmap : A → A
  pub print : A → Text
  pub prefix_contains : P → A → Bool
  pub split_host_port : Text → Option Text

-- The fields of an `http.Request`; `header` is `Header.Get`, empty for one that is absent.
pub record Request : Type 0 where
  pub remote_addr : Text
  pub host : Text
  pub tls : Bool
  pub header : Text → Text

-- Bytes at either end that are among some, as `strings.Trim` drops them.
abbrev trim_start : Text → Text → Text
trim_start cutset [] = []
trim_start cutset (c ∷ s) =
    let rest = trim_start cutset s in if any (λ d. d == c) cutset then rest else c ∷ s

unfoldable pub trim : Text → Text → Text
trim cutset s = reverse (trim_start cutset (reverse (trim_start cutset s)))

module _ {A : Type 0} {P : Type 0} (ip : Netip A P) (proxies : List P) where
  unfoldable pub is_trusted_proxy : A → Bool
  is_trusted_proxy addr = any (λ p. ip.prefix_contains p (ip.unmap addr)) proxies

  abbrev pub parse_part : Text → Option A
  parse_part part = ip.parse_addr (trim (codes "[]") (trim_space part))

  abbrev split_or : Text → Option Text → Text
  split_or raw none = raw
  split_or raw (some host) = host

  abbrev pub remote_host : Request → Text
  remote_host r = let raw = trim_space r.remote_addr in split_or raw (ip.split_host_port raw)

  abbrev trusts : Option A → Bool
  trusts none = false
  trusts (some peer) = is_trusted_proxy peer

  unfoldable pub peer_is_trusted_proxy : Request → Bool
  peer_is_trusted_proxy r = trusts (ip.parse_addr (trim (codes "[]") (remote_host r)))

  -- The walk over the hops, the last first: none where it runs out of hops or stops at a malformed one.
  pub data Walk : Type 0 where
    client : A → Walk
    malformed : Walk
    all_trusted : Walk

  abbrev at_hop : Option A → Walk → Walk
  at_hop none rest = malformed
  at_hop (some a) rest = if is_trusted_proxy a then rest else client a

  unfoldable pub walk : List Text → Walk
  walk [] = all_trusted
  walk (part ∷ parts) = let rest = walk parts in at_hop (parse_part part) rest

  abbrev printed : Option A → Text → Text
  printed none host = host
  printed (some a) host = ip.print (ip.unmap a)

  -- From the header X-Real-IP on.
  unfoldable pub by_real_ip : Request → Text
  by_real_ip r =
      let xri = trim_space (r.header (codes "X-Real-IP")) in
      if null xri
      then remote_host r
      else printed (ip.parse_addr (trim (codes "[]") xri)) (remote_host r)

  abbrev pub after_walk : Walk → Request → Text
  after_walk (client a) r = ip.print (ip.unmap a)
  after_walk malformed r = by_real_ip r
  after_walk all_trusted r = by_real_ip r

  unfoldable pub client_ip : Request → Text
  client_ip r =
      let xff = r.header (codes "X-Forwarded-For") in
      if not (peer_is_trusted_proxy r)
      then remote_host r
      else if null (trim_space xff)
      then by_real_ip r
      else after_walk (walk (reverse (split b',' xff))) r

  abbrev first_of : List Text → Text
  first_of [] = []
  first_of (part ∷ parts) = part

  -- The value before the first comma.
  abbrev pub first_value : Text → Text
  first_value v = trim_space (first_of (split b',' v))

  unfoldable pub request_host : Request → Text
  request_host r =
      let xfh = trim_space (r.header (codes "X-Forwarded-Host")) in
      if peer_is_trusted_proxy r && not (null xfh) then first_value xfh else r.host

  unfoldable pub forwarded_proto : Request → Text
  forwarded_proto r =
      if not (peer_is_trusted_proxy r)
      then []
      else to_lower (first_value (trim_space (r.header (codes "X-Forwarded-Proto"))))

  unfoldable pub request_is_secure : Request → Bool → Bool
  request_is_secure r hsts_enabled =
      if r.tls || hsts_enabled then true else text_eq (forwarded_proto r) (codes "https")
