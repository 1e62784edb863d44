-- ===== src/ClientAddress/Tests.antt =====
-- Requests through proxies, and the theorems applied to them.
use rssam.Common.{◌≡◌, refl, true, false, none, some, List, [], ◌∷◌, if◌then◌else◌, null}
use rssam.Common.Text.{Text, codes, text_eq, trim_space, to_lower, lower, split}
use rssam.ClientAddress.{
  Netip, Request, trim, is_trusted_proxy, peer_is_trusted_proxy, walk, by_real_ip, client_ip,
  request_host, forwarded_proto, request_is_secure,
}
use rssam.ClientAddress.Forwarded.{with_prefix, client_ip-with_prefix}

address_run : Unit {0}
unfolding trim is_trusted_proxy peer_is_trusted_proxy walk by_real_ip client_ip request_host
    forwarded_proto request_is_secure trim_space to_lower lower split
address_run = tt

-- Addresses are one letter; the proxies are "p" and "q".
abbrev letters : Netip Text Text
letters = record {
  parse_addr = λ s. elim s [ [] ↦ none | c ∷ rest ↦ if null rest then some (c ∷ []) else none ];
  unmap = λ a. a;
  print = λ a. a;
  prefix_contains = text_eq;
  split_host_port = λ s. none;
}

abbrev proxies : List Text
proxies = codes "p" ∷ codes "q" ∷ []

abbrev request : Text → Text → Request
request peer forwarded = record {
  remote_addr = peer;
  host = codes "upstream";
  tls = false;
  header = λ name.
      if text_eq name (codes "X-Forwarded-For")
      then forwarded
      else if text_eq name (codes "X-Forwarded-Proto")
      then codes "HTTPS, http"
      else [];
}

address_runs :
    (client_ip letters proxies (request (codes "p") (codes "a, [c], q")) ≡ codes "c")
    × (client_ip letters proxies (request (codes "p") (codes "a,bad,q")) ≡ codes "p")
    × (client_ip letters proxies (request (codes "x") (codes "a")) ≡ codes "x")
    × (request_is_secure letters proxies (request (codes "p") []) false ≡ true)
    × (request_is_secure letters proxies (request (codes "x") []) false ≡ false)
unfolding address_run
address_runs = (refl, refl, refl, refl, refl)

client_ip-with_prefix_example :
    client_ip letters proxies (with_prefix (codes "z,p") (request (codes "p") (codes "c, q")))
    ≡ client_ip letters proxies (request (codes "p") (codes "c, q"))
unfolding address_run
client_ip-with_prefix_example =
    client_ip-with_prefix letters proxies (codes "z,p") (request (codes "p") (codes "c, q")) refl
      refl
