-- ===== src/Protocol/CacheKey.antt =====
-- `DataSpec.cache_key` (packages/foundation/stockstat_foundation/protocol/task.py): the key of a
-- data request. `sorted` of texts is insertion sort by code points.
use mathlib.Core.List.{Perm, Permᴰ}
use mathlib.Core.Logic.{∥∥₁_elim}
use stock_statistic.Common.{
  ◌≡◌, refl, ◌∙◌, Bool, true, false, Option, none, some, List, [], ◌∷◌, ◌++◌, arith, ◌==◌, ltb,
  if◌then◌else◌,
}
use stock_statistic.Common.Text.{Text, codes}
use stock_statistic.Protocol.Task.{DataSpec}

-- `s <= t` on texts: the first code points that differ decide, and a prefix comes first.
unfoldable pub text_leb : Text → Text → Bool
text_leb [] t = true
text_leb (a ∷ s) [] = false
text_leb (a ∷ s) (b ∷ t) = if ltb a b then true else if a == b then text_leb s t else false

insert : Text → List Text → List Text
insert s [] = s ∷ []
insert s (t ∷ ts) = if text_leb s t then s ∷ t ∷ ts else t ∷ insert s ts

unfoldable pub sort_texts : List Text → List Text
unfolding insert text_leb
sort_texts [] = []
sort_texts (t ∷ ts) = insert t (sort_texts ts)

-- `sep.join(ts)`
unfoldable pub join : Text → List Text → Text
join sep [] = []
join sep (t ∷ []) = t
join sep (t ∷ u ∷ ts) = t ++ sep ++ join sep (u ∷ ts)

-- `s or ""`
abbrev or_empty : Option Text → Text
or_empty none = []
or_empty (some t) = t

-- The text that is hashed.
unfoldable pub raw_key : DataSpec → Text
raw_key s = join (codes "|") (
    join (codes ",") (sort_texts s.symbols)
    ∷ s.timeframe
    ∷ or_empty s.start
    ∷ or_empty s.end
    ∷ or_empty s.source
    ∷ [])

-- `digest` stands for the first 32 characters of the SHA-256 of the text, which the standard
-- library computes.
unfoldable pub cache_key : (Text → Text) → DataSpec → Text
cache_key digest s = digest (raw_key s)

text_leb_antisym : (s t : Text) → text_leb s t ≡ true → text_leb t s ≡ true → s ≡ t
unfolding text_leb
text_leb_antisym [] [] p q = refl
text_leb_antisym [] (b ∷ t) p q = ground arith
text_leb_antisym (a ∷ s) [] p q = ground arith
text_leb_antisym (a ∷ s) (b ∷ t) p q = ground (arith, text_leb_antisym s t)

text_leb_total : (s t : Text) → text_leb s t ≡ false → text_leb t s ≡ true
unfolding text_leb
text_leb_total [] t p = ground arith
text_leb_total (a ∷ s) [] p = ground arith
text_leb_total (a ∷ s) (b ∷ t) p = ground (arith, text_leb_total s t)

text_leb_trans : (s t u : Text) → text_leb s t ≡ true → text_leb t u ≡ true → text_leb s u ≡ true
unfolding text_leb
text_leb_trans [] t u p q = ground arith
text_leb_trans (a ∷ s) [] u p q = ground arith
text_leb_trans (a ∷ s) (b ∷ t) [] p q = ground arith
text_leb_trans (a ∷ s) (b ∷ t) (c ∷ u) p q = ground (arith, text_leb_trans s t u)

insert_comm : (s t : Text) (ts : List Text) → insert s (insert t ts) ≡ insert t (insert s ts)
unfolding insert
insert_comm s t [] = ground (arith, text_leb_antisym s t, text_leb_total s t, text_leb_total t s)
insert_comm s t (u ∷ ts) = ground (
  arith,
  insert_comm s t ts,
  text_leb_antisym s t,
  text_leb_total s t,
  text_leb_total t s,
  text_leb_trans s t u,
  text_leb_trans t s u,
  text_leb_total t u,
  text_leb_total s u,
  text_leb_trans s u t,
  text_leb_trans t u s,
)

sort_permᴰ : {xs ys : List Text} → Permᴰ xs ys → sort_texts xs ≡ sort_texts ys
unfolding sort_texts
sort_permᴰ Permᴰ.nil = refl
sort_permᴰ (Permᴰ.cons {a = a} e p) = rw (e, sort_permᴰ p)
sort_permᴰ (Permᴰ.swap {a' = a'} {b' = b'} {l = l} e f) = rw (e, f) (insert_comm _ _ (sort_texts l))
sort_permᴰ (Permᴰ.trans p q) = sort_permᴰ p ∙ sort_permᴰ q

Text-set : IsSet Text
Text-set = hlevel

-- The key of a data request does not depend on the order of its symbols.
pub cache_key-perm :
    (digest : Text → Text) (s : DataSpec) (symbols : List Text)
    → Perm s.symbols symbols
    → cache_key digest (record s { symbols = symbols }) ≡ cache_key digest s
unfolding cache_key raw_key
cache_key-perm digest s symbols p = ∥∥₁_elim p (Text-set _ _) (λ q. rw (sort_permᴰ q))
