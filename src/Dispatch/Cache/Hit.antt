-- ===== src/Dispatch/Cache/Hit.antt =====
-- What a lookup in the cache does (packages/dispatcher/stockstat_dispatcher/prefetch.py).
use stock_statistic.Common.{ℕ, ◌+◌, ◌≡◌, refl, none, some, arith}
use stock_statistic.Common.Text.{Text, starts_with-append}
use stock_statistic.Common.Dict.{get, modify, get-modify_self}
use stock_statistic.Common.Unique.{sum_by-modify, modify-IsMap}
use stock_statistic.Dispatch.Cache.{
  Bytes, CacheEntry, DataCache, touch, found, get_ref, fetch_bytes, ref_of,
}
use stock_statistic.Dispatch.Cache.Accounted.{IsAccounted}
use stock_statistic.Dispatch.Cache.Put.{drop_scheme}

-- The cache after a hit.
abbrev pub after_hit : ℕ → Text → DataCache → DataCache
after_hit now key c = record c { hits = c.hits + 1; entries = modify key (touch now) c.entries }

-- The cache after a miss.
abbrev pub after_miss : DataCache → DataCache
after_miss c = record c { misses = c.misses + 1 }

pub get_ref_hit :
    (now : ℕ) (key : Text) (c : DataCache) (e : CacheEntry)
    → get key c.entries ≡ some e
    → get_ref now key c ≡ (some (ref_of key), after_hit now key c)
unfolding get_ref
get_ref_hit now key c e h = rw (h, get_ref) refl

pub get_ref_miss :
    (now : ℕ) (key : Text) (c : DataCache)
    → get key c.entries ≡ none
    → get_ref now key c ≡ (none, after_miss c)
unfolding get_ref
get_ref_miss now key c h = rw (h, get_ref) refl

pub after_hit-IsAccounted :
    (now : ℕ) (key : Text) (c : DataCache) → IsAccounted c → IsAccounted (after_hit now key c)
after_hit-IsAccounted now key c h = record {
  unique = modify-IsMap key (touch now) c.entries h.unique;
  total = omega (
    arith,
    h.total,
    sum_by-modify (λ (e : CacheEntry). e.size) key (touch now) c.entries (λ e. refl),
  );
}

pub fetch_bytes-after_hit :
    (b64decode : Text → Bytes) (now : ℕ) (key : Text) (c : DataCache) (e : CacheEntry)
    → get key c.entries ≡ some e
    → fetch_bytes b64decode (ref_of key) (after_hit now key c) ≡ found e.bytes
unfolding fetch_bytes
fetch_bytes-after_hit b64decode now key c e h =
    simp (starts_with-append, drop_scheme, get-modify_self, h)
