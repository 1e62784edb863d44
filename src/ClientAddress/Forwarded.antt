-- ===== src/ClientAddress/Forwarded.antt =====
-- A client cannot choose the address it is known by.
use rssam.Common.{
  ℕ, ◌≡◌, refl, ◌∙◌, ap, Bool, true, false, not, ◌&&◌, Option, none, some, List, [], ◌∷◌, ◌++◌,
  if◌then◌else◌, null, all, ◌==◌, arith, Bool-cases, inl, inr,
}
use mathlib.Core.List.{reverse, reverse-append, reverse-cons}
use rssam.Common.Text.{Text, codes, is_space, trim_left, trim_space, split, text_eq}
use rssam.ClientAddress.{
  Netip, Request, is_trusted_proxy, parse_part, Walk, client, malformed, all_trusted, at_hop, walk,
  after_walk, client_ip, by_real_ip, peer_is_trusted_proxy, remote_host, request_host,
  request_is_secure, forwarded_proto,
}

split-parts : (sep : ℕ) (s : Text) → (p : Text) × (ps : List Text) × (split sep s ≡ p ∷ ps)
unfolding split
split-parts sep [] = ([], [], refl)
split-parts sep (c ∷ s) = elim (Bool-cases (c == sep)) [
  | inl here ↦ ([], split sep s, rw here refl)
  | inr other ↦ let (p, ps, e) = split-parts sep s in (c ∷ p, ps, rw (other, e) refl)
]

-- The parts of a text are those before and after a separator.
split-separator : (sep : ℕ) (s t : Text) → split sep (s ++ sep ∷ t) ≡ split sep s ++ split sep t
unfolding split
split-separator sep [] t = ground arith
split-separator sep (c ∷ s) t = elim (Bool-cases (c == sep)) [
  | inl here ↦ rw (here, split-separator sep s t) refl
  | inr other ↦ let (p, ps, e) = split-parts sep s in rw (other, split-separator sep s t, e) refl
]

all-append : (test : ℕ → Bool) (s t : Text) → all test (s ++ t) ≡ (all test s && all test t)
all-append test [] t = refl
all-append test (c ∷ s) t = ground (arith, all-append test s t)

null-last : (xs : Text) (c : ℕ) → null (xs ++ c ∷ []) ≡ false
null-last [] c = refl
null-last (x ∷ xs) c = refl

null-reverse : (s : Text) → null (reverse s) ≡ null s
null-reverse [] = refl
null-reverse (c ∷ s) = ap null (reverse-cons c s) ∙ null-last (reverse s) c

all-reverse : (test : ℕ → Bool) (s : Text) → all test (reverse s) ≡ all test s
all-reverse test [] = refl
all-reverse test (c ∷ s) =
    ap (all test) (reverse-cons c s)
    ∙ all-append test (reverse s) (c ∷ [])
    ∙ ground (arith, all-reverse test s)

null-trim_left : (s : Text) → null (trim_left s) ≡ all is_space s
null-trim_left [] = refl
null-trim_left (c ∷ s) = ground (arith, null-trim_left s)

all-trim_left : (s : Text) → all is_space (trim_left s) ≡ all is_space s
all-trim_left [] = refl
all-trim_left (c ∷ s) = ground (arith, all-trim_left s)

-- A text is blank where all of it is space.
null-trim_space : (s : Text) → null (trim_space s) ≡ all is_space s
unfolding trim_space
null-trim_space s =
    null-reverse (trim_left (reverse (trim_left s)))
    ∙ null-trim_left (reverse (trim_left s))
    ∙ all-reverse is_space (trim_left s)
    ∙ all-trim_left s

not_blank-append :
    (s t : Text) → null (trim_space t) ≡ false → null (trim_space (s ++ b',' ∷ t)) ≡ false
not_blank-append s t h =
    ground
      (arith, null-trim_space (s ++ b',' ∷ t), null-trim_space t, all-append is_space s (b',' ∷ t))

same_choice :
    {trusted1 trusted2 blank1 blank2 : Bool} (host x1 x2 y1 y2 : Text)
    → trusted1 ≡ trusted2
    → blank1 ≡ false
    → blank2 ≡ false
    → y1 ≡ y2
    → (if not trusted1 then host else if blank1 then x1 else y1)
      ≡ (if not trusted2 then host else if blank2 then x2 else y2)
same_choice host x1 x2 y1 y2 h k l e = rw (h, k, l, e) refl

-- The request with values written before those of X-Forwarded-For.
abbrev pub with_prefix : Text → Request → Request
with_prefix s r = record r {
  header = λ name.
      if text_eq name (codes "X-Forwarded-For")
      then s ++ b',' ∷ r.header (codes "X-Forwarded-For")
      else r.header name;
}

module _ {A : Type 0} {P : Type 0} (ip : Netip A P) (proxies : List P) where
  abbrev pub is_stopped : Walk ip proxies → Bool
  is_stopped (client a) = true
  is_stopped malformed = true
  is_stopped all_trusted = false

  at_hop-same :
      (o : Option A) (rest other : Walk ip proxies)
      → (is_stopped rest ≡ true → other ≡ rest)
      → is_stopped (at_hop ip proxies o rest) ≡ true
      → at_hop ip proxies o other ≡ at_hop ip proxies o rest
  at_hop-same none rest other same h = refl
  at_hop-same (some a) rest other same h = elim (Bool-cases (is_trusted_proxy ip proxies a)) [
    | inl trusted ↦ rw trusted (same (simp trusted at h))
    | inr client_found ↦ rw client_found refl
  ]

  walk-append :
      (xs ys : List Text)
      → is_stopped (walk ip proxies xs) ≡ true
      → walk ip proxies (xs ++ ys) ≡ walk ip proxies xs
  unfolding walk
  walk-append [] ys h = cc
  walk-append (x ∷ xs) ys h =
      at_hop-same (parse_part ip proxies x) (walk ip proxies xs) (walk ip proxies (xs ++ ys))
        (walk-append xs ys) h

  -- The hops of the proxies come first in the walk.
  walk-prefix :
      (s t : Text)
      → is_stopped (walk ip proxies (reverse (split b',' t))) ≡ true
      → walk ip proxies (reverse (split b',' (s ++ b',' ∷ t)))
        ≡ walk ip proxies (reverse (split b',' t))
  walk-prefix s t h =
      ap (λ parts. walk ip proxies (reverse parts)) (split-separator b',' s t)
      ∙ ap (walk ip proxies) (reverse-append (split b',' s) (split b',' t))
      ∙ walk-append (reverse (split b',' t)) (reverse (split b',' s)) h

  peer-with_prefix :
      (s : Text) (r : Request)
      → peer_is_trusted_proxy ip proxies (with_prefix s r) ≡ peer_is_trusted_proxy ip proxies r
  unfolding peer_is_trusted_proxy
  peer-with_prefix s r = refl

  by_real_ip-with_prefix :
      (s : Text) (r : Request) → by_real_ip ip proxies (with_prefix s r) ≡ by_real_ip ip proxies r
  unfolding by_real_ip
  by_real_ip-with_prefix s r = refl

  after_walk-with_prefix :
      (o : Walk ip proxies) (s : Text) (r : Request)
      → after_walk ip proxies o (with_prefix s r) ≡ after_walk ip proxies o r
  after_walk-with_prefix (client a) s r = refl
  after_walk-with_prefix malformed s r = by_real_ip-with_prefix s r
  after_walk-with_prefix all_trusted s r = by_real_ip-with_prefix s r

  -- Where the proxies have named a client, or a hop is malformed, values written before those of
  -- X-Forwarded-For do not change the address of the client; this for a header that is not blank.
  pub client_ip-with_prefix :
      (s : Text) (r : Request)
      → null (trim_space (r.header (codes "X-Forwarded-For"))) ≡ false
      → is_stopped (walk ip proxies (reverse (split b',' (r.header (codes "X-Forwarded-For")))))
        ≡ true
      → client_ip ip proxies (with_prefix s r) ≡ client_ip ip proxies r
  unfolding client_ip
  client_ip-with_prefix s r filled stopped =
      let xff = r.header (codes "X-Forwarded-For") in
      same_choice (remote_host ip proxies r) _ _ _ _ (peer-with_prefix s r)
        (not_blank-append s xff filled) filled
        (after_walk-with_prefix _ s r
          ∙ ap (λ o. after_walk ip proxies o r) (walk-prefix s xff stopped))

  -- A peer that is not a trusted proxy gains nothing by its headers: the address, the host and the
  -- security of its request are the same whatever it writes in them.
  pub untrusted_headers :
      (header : Text → Text) (r : Request) (hsts_enabled : Bool)
      → peer_is_trusted_proxy ip proxies r ≡ false
      → (client_ip ip proxies (record r { header = header }) ≡ client_ip ip proxies r)
        × (request_host ip proxies (record r { header = header }) ≡ request_host ip proxies r)
        × (request_is_secure ip proxies (record r { header = header }) hsts_enabled
            ≡ request_is_secure ip proxies r hsts_enabled)
  unfolding client_ip request_host request_is_secure forwarded_proto peer_is_trusted_proxy
  untrusted_headers header r hsts_enabled untrusted = rw untrusted (refl, refl, refl)
