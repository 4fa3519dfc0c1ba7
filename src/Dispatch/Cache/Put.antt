-- ===== src/Dispatch/Cache/Put.antt =====
-- What `put`, `get_ref` and `fetch_bytes` of the cache promise
-- (packages/dispatcher/stockstat_dispatcher/prefetch.py).
use stock_statistic.Common.{
  ℕ, ◌+◌, ◌≤◌, ◌≡◌, refl, ◌⊎◌, Option, none, some, [], ◌∷◌, ◌++◌, arith, inl, inr,
}
use stock_statistic.Common.Lists.{length, drop}
use stock_statistic.Common.Text.{Text, starts_with-append}
use stock_statistic.Common.Dict.{Dict, get, put, get-put_self}
use stock_statistic.Common.Unique.{IsMap, put-IsMap, sum_by-put}
use stock_statistic.Dispatch.Cache.{
  Bytes, CacheEntry, DataCache, found, make_room, put_bytes, fetch_bytes,
}
use stock_statistic.Dispatch.Cache.Accounted.{
  IsAccounted, sizes, room, limit-make_room, absent-make_room,
}

-- The size of the entry that is overwritten.
abbrev pub overwritten : Option CacheEntry → ℕ
overwritten none = 0
overwritten (some e) = e.size

-- The cache after the evictions of `put`.
abbrev pub evicted : ℕ → DataCache → DataCache
evicted n c = make_room (length c.entries) n c

length-put_empty :
    (key : Text) (e : CacheEntry) (d : Dict CacheEntry) → d ≡ [] → length (put key e d) ≡ 1
unfolding put
length-put_empty key e d h = rw h refl

-- From an accounted cache, `put` evicts until there is room or nothing is left. After it the
-- total passes the limit only if the new entry is alone, and the total is the sum of the sizes
-- and the size of the entry that was overwritten, which `put` does not take off.
pub put_bytes_account :
    (now : ℕ) (key : Text) (bytes : Bytes) (c : DataCache)
    → IsAccounted c
    → (((put_bytes now key bytes c).1.total_size ≤ c.max_size_bytes)
        ⊎ (length (put_bytes now key bytes c).1.entries ≡ 1))
      × ((put_bytes now key bytes c).1.total_size
          ≡ sizes (put_bytes now key bytes c).1.entries
            + overwritten (get key (evicted (length bytes) c).entries))
      × IsMap (put_bytes now key bytes c).1.entries
unfolding put_bytes
put_bytes_account now key bytes c h =
    let (accounted, space) = room (length bytes) c h in
    let limit = limit-make_room (length c.entries) (length bytes) c in
    let entry : CacheEntry = record { bytes = bytes; size = length bytes; last_access = now } in
    let rest = (evicted (length bytes) c).entries in
    (
      elim space [
        | inl fits ↦ inl (omega (arith, fits, limit))
        | inr alone ↦ inr (length-put_empty key entry rest alone)
      ],
      ground (arith, accounted.total, sum_by-put (λ (e : CacheEntry). e.size) key entry rest),
      put-IsMap key entry rest accounted.unique,
    )

-- With a new key, `put` keeps the account: the total stays the sum of the sizes.
pub put_bytes-IsAccounted :
    (now : ℕ) (key : Text) (bytes : Bytes) (c : DataCache)
    → IsAccounted c
    → get key c.entries ≡ none
    → IsAccounted (put_bytes now key bytes c).1
put_bytes-IsAccounted now key bytes c h absent =
    let (_, total, unique) = put_bytes_account now key bytes c h in
    record {
      unique = unique;
      total =
          ground (arith, total, absent-make_room (length c.entries) (length bytes) key c absent);
    }

pub drop_scheme : (p s : Text) → drop (length p) (p ++ s) ≡ s
drop_scheme [] s = refl
drop_scheme (a ∷ p) s = drop_scheme p s

-- The reference that `put` gives fetches the bytes that were put, whatever was evicted or
-- overwritten.
pub fetch_bytes-put_bytes :
    (b64decode : Text → Bytes) (now : ℕ) (key : Text) (bytes : Bytes) (c : DataCache)
    → fetch_bytes b64decode (put_bytes now key bytes c).0 (put_bytes now key bytes c).1
      ≡ found bytes
unfolding fetch_bytes put_bytes
fetch_bytes-put_bytes b64decode now key bytes c =
    simp (starts_with-append, drop_scheme, get-put_self)
