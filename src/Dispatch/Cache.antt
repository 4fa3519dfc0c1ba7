-- ===== src/Dispatch/Cache.antt =====
-- DataCache (packages/dispatcher/stockstat_dispatcher/prefetch.py): cached bytes under text keys,
-- evicted by the time of the last access. Sizes are in bytes; `now` is the clock. Each method holds
-- the cache's lock, so it is one step.
pub mod Accounted
pub mod Put
pub mod Hit
use stock_statistic.Common.{
  ℕ, zero, suc, ◌+◌, ◌-◌, Bool, true, false, Option, none, some, List, [], ◌∷◌, ◌++◌, leb, ltb,
  if◌then◌else◌,
}
use stock_statistic.Common.Lists.{length, drop}
use stock_statistic.Common.Text.{Text, codes, starts_with}
use stock_statistic.Common.Dict.{Dict, get, put, erase, modify}

abbrev pub Bytes : Type 0
Bytes = List ℕ

pub record CacheEntry : Type 0 where
  pub bytes : Bytes
  pub size : ℕ
  pub last_access : ℕ

pub record DataCache : Type 0 where
  pub max_size_bytes : ℕ
  pub entries : Dict CacheEntry
  pub total_size : ℕ
  pub hits : ℕ
  pub misses : ℕ

pub data FetchResult : Type 0 where
  found : Bytes → FetchResult
  -- ValueError "Cache miss for key"
  missed : (key : Text) → FetchResult
  -- ValueError "Unknown data_ref"
  unknown_ref : (ref : Text) → FetchResult

abbrev pub cache_scheme : Text
cache_scheme = codes "cache://"

abbrev pub inline_scheme : Text
inline_scheme = codes "inline:"

-- `f"cache://{key}"`
abbrev pub ref_of : Text → Text
ref_of key = cache_scheme ++ key

abbrev pub touch : ℕ → CacheEntry → CacheEntry
touch now e = record e { last_access = now }

unfoldable pub get_ref : ℕ → Text → DataCache → Option Text × DataCache
get_ref now key c = elim (get key c.entries) [
  | none ↦ (none, record c { misses = c.misses + 1 })
  | some e ↦ (
    some (ref_of key),
    record c { hits = c.hits + 1; entries = modify key (touch now) c.entries },
  )
]

abbrev fetched : Text → Option CacheEntry → FetchResult
fetched key none = missed key
fetched key (some e) = found e.bytes

-- `b64decode` is the standard library's.
unfoldable pub fetch_bytes : (Text → Bytes) → Text → DataCache → FetchResult
fetch_bytes b64decode ref c =
    if starts_with ref cache_scheme
    then (let key = drop (length cache_scheme) ref in fetched key (get key c.entries))
    else if starts_with ref inline_scheme
    then found (b64decode (drop (length inline_scheme) ref))
    else unknown_ref ref

-- `min(self._cache, key=...)`: the first of the oldest entries.
unfoldable pub oldest : Text → CacheEntry → Dict CacheEntry → Text × CacheEntry
oldest k e [] = (k, e)
oldest k e ((j, f) ∷ d) =
    let b = ltb f.last_access e.last_access in oldest (if b then j else k) (if b then f else e) d

unfoldable pub evict_lru : DataCache → DataCache
unfolding oldest
evict_lru c = elim c.entries [
  | [] ↦ c
  | (k, e) ∷ d ↦
      let (key, entry) = oldest k e d in
      record c { entries = erase key ((k, e) ∷ d); total_size = c.total_size - entry.size }
]

-- The loop of `put`, on fuel: each round removes an entry, so the number of entries is enough.
unfoldable pub make_room : ℕ → ℕ → DataCache → DataCache
make_room zero n c = c
make_room (suc fuel) n c =
    let rest = make_room fuel n (evict_lru c) in
    if leb (c.total_size + n) c.max_size_bytes then c else elim c.entries [ [] ↦ c | _ ∷ _ ↦ rest ]

unfoldable pub put_bytes : ℕ → Text → Bytes → DataCache → Text × DataCache
put_bytes now key bytes c =
    let c' = make_room (length c.entries) (length bytes) c in
    let entry : CacheEntry = record { bytes = bytes; size = length bytes; last_access = now } in
    (
      ref_of key,
      record c' { entries = put key entry c'.entries; total_size = c'.total_size + length bytes },
    )

unfoldable pub invalidate : Text → DataCache → DataCache
invalidate key c = elim (get key c.entries) [
  | none ↦ c
  | some e ↦ record c { entries = erase key c.entries; total_size = c.total_size - e.size }
]

unfoldable pub clear : DataCache → DataCache
clear c = record c { entries = []; total_size = 0; hits = 0; misses = 0 }

-- `hits / (hits + misses)`, as the two numbers; `0.0` where there was no call.
unfoldable pub hit_rate : DataCache → Option (ℕ × ℕ)
hit_rate c = let total = c.hits + c.misses in if ltb 0 total then some (c.hits, total) else none
