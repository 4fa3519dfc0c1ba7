-- ===== src/Storage/QueryCache/Recent.antt =====
-- Which entries a QueryCache keeps (packages/storage/stockstat_backend/storage/cache.py).
use stock_statistic.Common.{
  ℕ, suc, ◌+◌, ◌≤◌, ◌<◌, ◌≡◌, ◌≢◌, refl, sym, ap, ◌∙◌, true, false, Option, none, some, List, [],
  ◌∷◌, ◌++◌, leb, if◌then◌else◌, is_some, arith, inl, inr, Bool-cases, Option-cases,
}
use mathlib.Core.List.{append-nil}
use mathlib.Core.Logic.{◌⊎◌}
use stock_statistic.Common.Text.{Text, text_eq, text_eq_iff, text_eq_refl}
use stock_statistic.Common.Lists.{length, length-append, All}
use stock_statistic.Common.Dict.{Dict, get, put, erase, get-erase}
use stock_statistic.Common.Unique.{erase_absent, length-erase_le, length-erase_lt}
use stock_statistic.Storage.QueryCache.{
  QueryCache, move_to_end, trim, is_stale, found_entry, cache_get, cache_put, invalidate_query,
  clear_queries, CacheCall, get_call, put_call, invalidate_call, clear_call, call_step, run_calls,
}

module _ {ℓ} {W : Type ℓ} where
  -- The entry under `k` is `e`, with at most `n` entries behind it.
  pub data Recent (k : Text) (e : W) (n : ℕ) : Dict W → Type ℓ where
    here : {back : Dict W} → length back ≤ n → Recent k e n ((k, e) ∷ back)
    later : {j : Text} {w : W} {d : Dict W} → j ≢ k → Recent k e n d → Recent k e n ((j, w) ∷ d)

  Recent-get : {k : Text} {e : W} {n : ℕ} {d : Dict W} → Recent k e n d → get k d ≡ some e
  unfolding get
  Recent-get {k} (here h) = rw (text_eq_refl k) refl
  Recent-get {k} (later {j} ne r) = ground (arith, text_eq_iff j k, ne, Recent-get r)

  Recent-erase :
      {k : Text} {e : W} {n : ℕ} {d : Dict W} (j : Text)
      → j ≢ k
      → Recent k e n d
      → Recent k e n (erase j d)
  unfolding erase
  Recent-erase {k} j ne (here {back} h) = elim (Bool-cases (text_eq k j)) [
    | inl same ↦ absurd (ne (sym ((text_eq_iff k j).0 same)))
    | inr other ↦ rw other (here (omega (arith, h, length-erase_le j back)))
  ]
  Recent-erase j ne (later {j = i} apart r) = elim (Bool-cases (text_eq i j)) [
    | inl same ↦ rw same (Recent-erase j ne r)
    | inr other ↦ rw other (later apart (Recent-erase j ne r))
  ]

  Recent-append :
      {k : Text} {e : W} {n : ℕ} {d : Dict W} (x : Text × W)
      → Recent k e n d
      → Recent k e (suc n) (d ++ x ∷ [])
  Recent-append x (here {back} h) = here (omega (arith, h, length-append back (x ∷ [])))
  Recent-append x (later ne r) = later ne (Recent-append x r)

  Recent-trim :
      {k : Text} {e : W} {n : ℕ} {d : Dict W} (m : ℕ)
      → n < m
      → Recent k e n d
      → Recent k e n (trim m d)
  unfolding trim
  Recent-trim m lt (here {back} h) =
      let fits : leb (suc (length back)) m ≡ true = ground arith in rw fits (here h)
  Recent-trim m lt (later {d = d} ne r) = elim (Bool-cases (leb (suc (length d)) m)) [
    | inl fits ↦ rw fits (later ne r)
    | inr full ↦ rw full (Recent-trim m lt r)
  ]

  -- The last place, after a key has left its own.
  Recent-last : (k : Text) (e : W) (d : Dict W) → Recent k e 0 (erase k d ++ (k, e) ∷ [])
  unfolding erase
  Recent-last k e [] = here (omega arith)
  Recent-last k e ((j, w) ∷ d) = elim (Bool-cases (text_eq j k)) [
    | inl same ↦ rw same (Recent-last k e d)
    | inr other ↦ rw other (later (λ p. cc ((text_eq_iff j k).1 p)) (Recent-last k e d))
  ]

  length-trim : (m : ℕ) (d : Dict W) → length (trim m d) ≤ m
  unfolding trim
  length-trim m [] = omega arith
  length-trim m (x ∷ d) = ground (arith, length-trim m d)

  put_absent :
      (k : Text) (e : W) (d x : Dict W) → get k d ≡ none → put k e (d ++ x) ≡ d ++ put k e x
  unfolding get put
  put_absent k e [] x h = refl
  put_absent k e ((j, w) ∷ d) x h = elim (Bool-cases (text_eq j k)) [
    | inl same ↦ cc (rw same at h)
    | inr other ↦ rw other (ap (λ l. (j, w) ∷ l) (put_absent k e d x (rw other at h)))
  ]

module _ {ℓ} {V : Type ℓ} where
  -- The calls about other keys than `k`, and none that empties the cache.
  abbrev pub Spares : Text → CacheCall V → Type 0
  Spares k (get_call j) = j ≢ k
  Spares k (put_call j v) = j ≢ k
  Spares k (invalidate_call j) = j ≢ k
  Spares k clear_call = ⊥

  -- Where put writes an entry: at the end, whatever place the key had.
  put-moved :
      (k : Text) (e : V × ℕ) (d : Dict (V × ℕ))
      → put k e (if is_some (get k d) then move_to_end k d else d) ≡ erase k d ++ (k, e) ∷ []
  put-moved k e d = elim (Option-cases (get k d)) [
    | inl missing ↦ rw missing (ends missing)
    | inr (w, found) ↦
        rw (found, move_to_end)
          (put_absent k e (erase k d) ((k, w) ∷ []) (rw (get-erase k k d, text_eq_refl k) refl)
            ∙ unfold put in rw (text_eq_refl k) refl)
  ]
    where
      ends : get k d ≡ none → put k e d ≡ erase k d ++ (k, e) ∷ []
      ends missing =
          rw (erase_absent k d missing)
            (ap (put k e) (sym (append-nil d)) ∙ put_absent k e d [] missing ∙ unfold put in refl)

  abbrev Keeps : Text → V × ℕ → ℕ → QueryCache V → Type ℓ
  Keeps k e n c = Recent k e n c.entries

  Recent-put :
      {k : Text} {e : V × ℕ} {n : ℕ} (now : ℕ) (j : Text) (v : V) (c : QueryCache V)
      → j ≢ k
      → suc n < c.max_size
      → Keeps k e n c
      → Keeps k e (suc n) (cache_put now j v c)
  unfolding cache_put
  Recent-put now j v c ne lt r =
      rw (put-moved j (v, now) c.entries)
        (Recent-trim c.max_size lt (Recent-append (j, (v, now)) (Recent-erase j ne r)))

  Recent-weaken :
      {k : Text} {e : V × ℕ} {n : ℕ} {d : Dict (V × ℕ)} → Recent k e n d → Recent k e (suc n) d
  Recent-weaken (here h) = here (omega (arith, h))
  Recent-weaken (later ne r) = later ne (Recent-weaken r)

  Recent-move_to_end :
      {k : Text} {e : V × ℕ} {n : ℕ} (j : Text) (d : Dict (V × ℕ))
      → j ≢ k
      → Recent k e n d
      → Recent k e (suc n) (move_to_end j d)
  Recent-move_to_end j d ne r = elim (Option-cases (get j d)) [
    | inl missing ↦ rw (missing, move_to_end) (Recent-weaken r)
    | inr (w, found) ↦ rw (found, move_to_end) (Recent-append (j, w) (Recent-erase j ne r))
  ]

  Recent-found_entry :
      {k : Text} {e : V × ℕ} {n : ℕ} (now : ℕ) (j : Text) (c : QueryCache V)
      (entry : Option (V × ℕ))
      → j ≢ k
      → Keeps k e n c
      → Keeps k e (suc n) (found_entry now j c entry).0
  Recent-found_entry now j c none ne r = Recent-weaken r
  Recent-found_entry now j c (some (v, ts)) ne r = elim (Bool-cases (is_stale now c ts)) [
    | inl stale ↦ rw stale (Recent-weaken (Recent-erase j ne r))
    | inr fresh ↦ rw fresh (Recent-move_to_end j c.entries ne r)
  ]

  max_size-found_entry :
      (now : ℕ) (j : Text) (c : QueryCache V) (entry : Option (V × ℕ))
      → ((found_entry now j c entry).0.max_size ≡ c.max_size)
        × ((found_entry now j c entry).0.ttl ≡ c.ttl)
  max_size-found_entry now j c none = (refl, refl)
  max_size-found_entry now j c (some (v, ts)) = ground arith

  max_size-call_step :
      (now : ℕ) (call : CacheCall V) (c : QueryCache V)
      → ((call_step now call c).max_size ≡ c.max_size) × ((call_step now call c).ttl ≡ c.ttl)
  unfolding call_step
  max_size-call_step now (get_call j) c = max_size-found_entry now j c (get j c.entries)
  max_size-call_step now (put_call j v) c = (refl, refl)
  max_size-call_step now (invalidate_call j) c = (refl, refl)
  max_size-call_step now clear_call c = (refl, refl)

  Recent-call_step :
      {k : Text} {e : V × ℕ} {n : ℕ} (now : ℕ) (call : CacheCall V) (c : QueryCache V)
      → Spares k call
      → suc n < c.max_size
      → Keeps k e n c
      → Keeps k e (suc n) (call_step now call c)
  unfolding call_step
  Recent-call_step now (get_call j) c ne lt r = Recent-found_entry now j c (get j c.entries) ne r
  Recent-call_step now (put_call j v) c ne lt r = Recent-put now j v c ne lt r
  Recent-call_step now (invalidate_call j) c ne lt r = Recent-weaken (Recent-erase j ne r)
  Recent-call_step now clear_call c ne lt r = elim ne [ ]

  Recent-run_calls :
      {k : Text} {e : V × ℕ} {n : ℕ} (calls : List (ℕ × CacheCall V)) (c : QueryCache V)
      → All (λ call. Spares k call.1) calls
      → n + length calls < c.max_size
      → Keeps k e n c
      → (m : ℕ) × Keeps k e m (run_calls calls c) × ((run_calls calls c).ttl ≡ c.ttl)
  unfolding run_calls
  Recent-run_calls {n = n} [] c h lt r = (n, r, refl)
  Recent-run_calls ((now, call) ∷ calls) c h lt r =
      let (same, kept) = max_size-call_step now call c in
      let (m, there, ttl) =
        Recent-run_calls calls (call_step now call c) h.1 (omega (arith, lt, same))
          (Recent-call_step now call c h.0 (omega (arith, lt)) r) in
      (m, there, ttl ∙ kept)

  -- An entry that was put is still there after fewer calls about other keys than the cache has
  -- room for, and is found as long as it is not too old.
  pub cache_get-run_calls :
      (k : Text) (v : V) (ts now : ℕ) (c : QueryCache V) (calls : List (ℕ × CacheCall V))
      → All (λ call. Spares k call.1) calls
      → length calls < c.max_size
      → (c.ttl ≡ 0) ⊎ (now ≤ ts + c.ttl)
      → (cache_get now k (run_calls calls (cache_put ts k v c))).1 ≡ some v
  unfolding cache_get cache_put
  cache_get-run_calls k v ts now c calls h lt young =
      let c' = cache_put ts k v c in
      let first : Keeps k (v, ts) 0 c' =
        rw (put-moved k (v, ts) c.entries)
          (Recent-trim c.max_size (omega (arith, lt)) (Recent-last k (v, ts) c.entries)) in
      let (m, there, ttl) = Recent-run_calls calls c' h (omega (arith, lt)) first in
      let fresh : is_stale now (run_calls calls c') ts ≡ false = ground (arith, ttl, young) in
      rw (Recent-get there, found_entry) (rw fresh refl)

  length-move_to_end : (j : Text) (d : Dict (V × ℕ)) → length (move_to_end j d) ≤ length d
  length-move_to_end j d = elim (Option-cases (get j d)) [
    | inl missing ↦ rw (missing, move_to_end) (omega arith)
    | inr (w, found) ↦
        rw (found, move_to_end)
          (omega (arith, length-append (erase j d) ((j, w) ∷ []), length-erase_lt j d w found))
  ]

  length-found_entry :
      (now : ℕ) (j : Text) (c : QueryCache V) (entry : Option (V × ℕ))
      → length c.entries ≤ c.max_size
      → length (found_entry now j c entry).0.entries ≤ c.max_size
  length-found_entry now j c none h = h
  length-found_entry now j c (some (v, ts)) h = elim (Bool-cases (is_stale now c ts)) [
    | inl stale ↦ rw stale (omega (arith, h, length-erase_le j c.entries))
    | inr fresh ↦ rw fresh (omega (arith, h, length-move_to_end j c.entries))
  ]

  -- No calls take a cache past its size.
  pub length-run_calls :
      (calls : List (ℕ × CacheCall V)) (c : QueryCache V)
      → length c.entries ≤ c.max_size
      → length (run_calls calls c).entries ≤ c.max_size
  unfolding run_calls call_step cache_get cache_put invalidate_query clear_queries
  length-run_calls [] c h = h
  length-run_calls ((now, get_call j) ∷ calls) c h =
      let c' = (found_entry now j c (get j c.entries)).0 in
      let (same, _) = max_size-found_entry now j c (get j c.entries) in
      omega (
        arith,
        same,
        length-run_calls calls c'
            (omega (arith, same, length-found_entry now j c (get j c.entries) h)),
      )
  length-run_calls ((now, put_call j v) ∷ calls) c h =
      length-run_calls calls (cache_put now j v c) (length-trim c.max_size _)
  length-run_calls ((now, invalidate_call j) ∷ calls) c h =
      length-run_calls calls (invalidate_query j c) (omega (arith, h, length-erase_le j c.entries))
  length-run_calls ((now, clear_call) ∷ calls) c h =
      length-run_calls calls (clear_queries c) (omega arith)
