-- ===== src/Service/TtlCache.antt =====
-- internal/service/ttl_cache.go: values per id that expire. The clock is an argument.
pub mod Laws
use rssam.Common.{Bool, Option, none, some, List, [], ◌∷◌, if◌then◌else◌}
use rssam.Common.Int.{ℤ, pos, ◌-ℤ◌, leb_ℤ}
use rssam.Common.Maps.{int_key, find, insert, delete}
use rssam.Poll.Schedule.{Duration, Time}

-- `ttlCacheItem`
pub record TtlCacheItem {ℓ} (V : Type ℓ) : Type ℓ where
  pub at : Time
  pub val : V

-- The map `items`; nil is the empty map.
abbrev pub TtlCache {ℓ} : Type ℓ → Type ℓ
TtlCache V = List (ℤ × TtlCacheItem V)

module _ {ℓ} {V : Type ℓ} where
  abbrev pub is_expired : Duration → Time → TtlCacheItem V → Bool
  is_expired ttl now it = leb_ℤ ttl (now -ℤ it.at)

  abbrev pub found :
      ℤ → Duration → Time → Option (TtlCacheItem V) → TtlCache V → TtlCache V × Option V
  found id ttl now none items = (items, none)
  found id ttl now (some it) items =
      if is_expired ttl now it then (delete id items, none) else (items, some it.val)

  unfoldable pub get : ℤ → Duration → Time → TtlCache V → TtlCache V × Option V
  get id ttl now items = found id ttl now (find id items) items

  unfoldable pub put : ℤ → V → Time → TtlCache V → TtlCache V
  put id v now items = insert id (record { at = now; val = v }) items

  unfoldable pub invalidate : ℤ → TtlCache V → TtlCache V
  invalidate id items = if leb_ℤ id (pos 0) then [] else delete id items
