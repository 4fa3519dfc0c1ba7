-- ===== src/Storage/QueryCache.antt =====
-- QueryCache (packages/storage/stockstat_backend/storage/cache.py). An OrderedDict is a dictionary
-- in the order of its entries, the oldest first.
pub mod Recent
use stock_statistic.Common.{
  ℕ, zero, suc, ◌+◌, ◌-◌, Bool, true, false, ◌&&◌, Option, none, some, List, [], ◌∷◌, ◌++◌, leb,
  ltb, if◌then◌else◌, is_some,
}
use stock_statistic.Common.Text.{Text}
use stock_statistic.Common.Lists.{length}
use stock_statistic.Common.Dict.{Dict, get, put, erase}

-- An entry is a value and the time at which it was put.
pub record QueryCache {ℓ} (V : Type ℓ) : Type ℓ where
  pub entries : Dict (V × ℕ)
  pub max_size : ℕ
  pub ttl : ℕ
  pub hits : ℕ
  pub misses : ℕ

pub record QueryStats : Type 0 where
  pub size : ℕ
  pub max_size : ℕ
  pub hits : ℕ
  pub misses : ℕ
  pub hit_rate : ℕ × ℕ

-- `d.move_to_end(key)`
abbrev pub move_to_end {ℓ} : {W : Type ℓ} → Text → Dict W → Dict W
move_to_end key d = elim (get key d) [ none ↦ d | some w ↦ erase key d ++ (key, w) ∷ [] ]

-- `while len(d) > max_size: d.popitem(last=False)`
unfoldable pub trim {ℓ} : {W : Type ℓ} → ℕ → Dict W → Dict W
trim max_size [] = []
trim max_size (e ∷ d) =
    let rest = trim max_size d in if leb (suc (length d)) max_size then e ∷ d else rest

-- The calls of a cache.
pub data CacheCall {ℓ} (V : Type ℓ) : Type ℓ where
  get_call : Text → CacheCall V
  put_call : Text → V → CacheCall V
  invalidate_call : Text → CacheCall V
  clear_call : CacheCall V

module _ {ℓ} {V : Type ℓ} where
  abbrev pub new_cache : (max_size ttl : ℕ) → QueryCache V
  new_cache max_size ttl = record {
    entries = [];
    max_size = max_size;
    ttl = ttl;
    hits = 0;
    misses = 0;
  }

  abbrev pub is_stale : (now : ℕ) → QueryCache V → ℕ → Bool
  is_stale now c ts = ltb 0 c.ttl && ltb c.ttl (now - ts)

  abbrev pub found_entry :
      (now : ℕ) → Text → QueryCache V → Option (V × ℕ) → QueryCache V × Option V
  found_entry now key c none = (record c { misses = c.misses + 1 }, none)
  found_entry now key c (some (value, ts)) =
      if is_stale now c ts
      then (record c { entries = erase key c.entries; misses = c.misses + 1 }, none)
      else (record c { entries = move_to_end key c.entries; hits = c.hits + 1 }, some value)

  unfoldable pub cache_get : (now : ℕ) → Text → QueryCache V → QueryCache V × Option V
  cache_get now key c = found_entry now key c (get key c.entries)

  unfoldable pub cache_put : (now : ℕ) → Text → V → QueryCache V → QueryCache V
  cache_put now key value c =
      let moved = if is_some (get key c.entries) then move_to_end key c.entries else c.entries in
      record c { entries = trim c.max_size (put key (value, now) moved) }

  unfoldable pub invalidate_query : Text → QueryCache V → QueryCache V
  invalidate_query key c = record c { entries = erase key c.entries }

  unfoldable pub clear_queries : QueryCache V → QueryCache V
  clear_queries c = record c { entries = []; hits = 0; misses = 0 }

  -- The hit rate is the quotient of the two counts, and zero over zero stands for 0.0.
  unfoldable pub query_stats : QueryCache V → QueryStats
  query_stats c = record {
    size = length c.entries;
    max_size = c.max_size;
    hits = c.hits;
    misses = c.misses;
    hit_rate = (c.hits, c.hits + c.misses);
  }

  -- A call at a time.
  abbrev pub call_step : ℕ → CacheCall V → QueryCache V → QueryCache V
  unfolding cache_get cache_put invalidate_query clear_queries
  call_step now (get_call key) c = (cache_get now key c).0
  call_step now (put_call key value) c = cache_put now key value c
  call_step now (invalidate_call key) c = invalidate_query key c
  call_step now clear_call c = clear_queries c

  unfoldable pub run_calls : List (ℕ × CacheCall V) → QueryCache V → QueryCache V
  unfolding call_step
  run_calls [] c = c
  run_calls ((now, call) ∷ calls) c = run_calls calls (call_step now call c)
