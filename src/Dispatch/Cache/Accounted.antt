-- ===== src/Dispatch/Cache/Accounted.antt =====
-- The cache's account of its size (packages/dispatcher/stockstat_dispatcher/prefetch.py).
use stock_statistic.Common.{
  ℕ, zero, suc, ◌+◌, ◌≤◌, ◌≡◌, refl, ◌⊎◌, none, some, [], ◌∷◌, arith, leb, leb→le, ltb, inl, inr,
  Bool-cases,
}
use stock_statistic.Common.Lists.{length, All}
use stock_statistic.Common.Sum.{sum_by}
use stock_statistic.Common.Text.{Text, text_eq, text_eq_iff, text_eq_refl}
use stock_statistic.Common.Dict.{Dict, get, values, get-erase}
use stock_statistic.Common.Unique.{IsMap, erase-IsMap, sum_by-erase, length-erase_lt}
use stock_statistic.Dispatch.Cache.{CacheEntry, DataCache, oldest, evict_lru, make_room}

abbrev pub sizes : Dict CacheEntry → ℕ
sizes d = sum_by (λ (e : CacheEntry). e.size) (values d)

-- Each key stands once, and the total is the sum of the sizes.
pub record IsAccounted (c : DataCache) : Type 0 where
  pub unique : IsMap c.entries
  pub total : c.total_size ≡ sizes c.entries

-- Each of the pairs is in the dictionary.
abbrev Agrees : Dict CacheEntry → Dict CacheEntry → Type 0
Agrees d l = All (λ p. get p.0 d ≡ some p.1) l

get_behind :
    (k j : Text) (e f : CacheEntry) (d : Dict CacheEntry)
    → get k d ≡ none
    → get j d ≡ some f
    → get j ((k, e) ∷ d) ≡ some f
unfolding get
get_behind k j e f d h g = elim (Bool-cases (text_eq k j)) [
  | inl same ↦ cc (h, g, (text_eq_iff k j).0 same)
  | inr other ↦ rw other g
]

Agrees-cons :
    (k : Text) (e : CacheEntry) (d l : Dict CacheEntry)
    → get k d ≡ none
    → Agrees d l
    → Agrees ((k, e) ∷ d) l
Agrees-cons k e d [] h a = tt
Agrees-cons k e d ((j, f) ∷ l) h a = (get_behind k j e f d h a.0, Agrees-cons k e d l h a.1)

get-cons_self : (k : Text) (e : CacheEntry) (d : Dict CacheEntry) → get k ((k, e) ∷ d) ≡ some e
unfolding get
get-cons_self k e d = rw text_eq_refl

Agrees-self : (d : Dict CacheEntry) → IsMap d → Agrees d d
Agrees-self [] h = tt
Agrees-self ((k, e) ∷ d) h = (get-cons_self k e d, Agrees-cons k e d d h.0 (Agrees-self d h.1))

oldest-Agrees :
    (all : Dict CacheEntry) (k : Text) (e : CacheEntry) (d : Dict CacheEntry)
    → Agrees all ((k, e) ∷ d)
    → get (oldest k e d).0 all ≡ some (oldest k e d).1
unfolding oldest
oldest-Agrees all k e [] a = a.0
oldest-Agrees all k e ((j, f) ∷ d) a = elim (Bool-cases (ltb f.last_access e.last_access)) [
  | inl older ↦ rw (older, oldest) (oldest-Agrees all j f d a.1)
  | inr newer ↦ rw (newer, oldest) (oldest-Agrees all k e d (a.0, a.1.1))
]

evict_entries :
    (c : DataCache) (k : Text) (e : CacheEntry) (d : Dict CacheEntry)
    → IsAccounted (record c { entries = (k, e) ∷ d })
    → IsAccounted (evict_lru (record c { entries = (k, e) ∷ d }))
      × (length (evict_lru (record c { entries = (k, e) ∷ d })).entries ≤ length d)
unfolding evict_lru
evict_entries c k e d h =
    let out = oldest k e d in
    let there = oldest-Agrees ((k, e) ∷ d) k e d (Agrees-self ((k, e) ∷ d) h.unique) in
    (
      record {
        unique = erase-IsMap out.0 ((k, e) ∷ d) h.unique;
        total = omega (
          arith,
          h.total,
          sum_by-erase (λ (x : CacheEntry). x.size) out.0 ((k, e) ∷ d) out.1 h.unique there,
        );
      },
      omega (arith, length-erase_lt out.0 ((k, e) ∷ d) out.1 there),
    )

-- What the loop of `put` has reached: there is room, or nothing is left to evict.
abbrev pub HasRoom : ℕ → DataCache → Type 0
HasRoom n c = (c.total_size + n ≤ c.max_size_bytes) ⊎ (c.entries ≡ [])

make_room_lem :
    (fuel n : ℕ) (c : DataCache) (d : Dict CacheEntry)
    → IsAccounted (record c { entries = d })
    → length d ≤ fuel
    → IsAccounted (make_room fuel n (record c { entries = d }))
      × HasRoom n (make_room fuel n (record c { entries = d }))
unfolding make_room
make_room_lem zero n c [] h le = (h, inr refl)
make_room_lem zero n c (p ∷ d) h le = absurd (omega arith)
make_room_lem (suc fuel) n c [] h le = elim (Bool-cases (leb (c.total_size + n) c.max_size_bytes)) [
  | inl fits ↦ rw fits (h, inr refl)
  | inr full ↦ rw full (h, inr refl)
]
make_room_lem (suc fuel) n c ((k, e) ∷ d) h le =
    let next = evict_entries c k e d h in
    elim (Bool-cases (leb (c.total_size + n) c.max_size_bytes)) [
      | inl fits ↦ rw fits (h, inl (leb→le _ _ fits))
      | inr full ↦ rw full (
          make_room_lem fuel n (evict_lru (record c { entries = (k, e) ∷ d }))
            (evict_lru (record c { entries = (k, e) ∷ d })).entries next.0 (omega (arith, next.1)))
    ]

pub room :
    (n : ℕ) (c : DataCache)
    → IsAccounted c
    → IsAccounted (make_room (length c.entries) n c) × HasRoom n (make_room (length c.entries) n c)
room n c h = make_room_lem (length c.entries) n c c.entries h (omega arith)

limit-evict_lru : (c : DataCache) → (evict_lru c).max_size_bytes ≡ c.max_size_bytes
unfolding evict_lru
limit-evict_lru c = ground arith

-- The loop keeps the limit.
pub limit-make_room :
    (fuel n : ℕ) (c : DataCache) → (make_room fuel n c).max_size_bytes ≡ c.max_size_bytes
unfolding make_room
limit-make_room zero n c = refl
limit-make_room (suc fuel) n c =
    ground (arith, limit-make_room fuel n (evict_lru c), limit-evict_lru c)

absent_entries :
    (key : Text) (c : DataCache) (d : Dict CacheEntry)
    → get key d ≡ none
    → get key (evict_lru (record c { entries = d })).entries ≡ none
unfolding evict_lru
absent_entries key c [] h = h
absent_entries key c ((k, e) ∷ d) h = ground (arith, h, get-erase (oldest k e d).0 key ((k, e) ∷ d))

absent-evict_lru :
    (key : Text) (c : DataCache) → get key c.entries ≡ none → get key (evict_lru c).entries ≡ none
absent-evict_lru key c h = absent_entries key c c.entries h

-- The loop adds no key.
pub absent-make_room :
    (fuel n : ℕ) (key : Text) (c : DataCache)
    → get key c.entries ≡ none
    → get key (make_room fuel n c).entries ≡ none
unfolding make_room
absent-make_room zero n key c h = h
absent-make_room (suc fuel) n key c h =
    ground (arith, absent-make_room fuel n key (evict_lru c), absent-evict_lru key c)
