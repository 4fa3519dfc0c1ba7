-- ===== src/Tests/Database.antt =====
-- A database and frames that behave as documented: what was written, the last first, read in the
-- order of the timestamps.
use mathlib.Core.List.{Memᴰ}
use mathlib.Core.List.Memᴰ
use mathlib.Core.Path.{subst}
use mathlib.Core.Option.{some-injective}
use stock_statistic.Common.{
  ℕ, ◌≤◌, ◌≡◌, ◌≢◌, ◌⊎◌, refl, sym, ap, ◌∙◌, true, false, not, Option, none, some, List, [], ◌∷◌,
  map, ltb, if◌then◌else◌, arith, inl, inr, Bool-cases,
}
use stock_statistic.Common.Text.{Text, text_eq, text_eq_iff, text_eq_refl}
use stock_statistic.Common.Lists.{length, All, filter}
use stock_statistic.Common.Members.{Pairwise, mem-filter, mem_of_filter, Pairwise-filter}
use stock_statistic.Storage.Tables.{
  Candle, Ohlcv, SymbolMetadata, Session, Pandas, Key, primary_key, StandsBefore, IsDatabase,
  IsPandas,
}
use stock_statistic.Storage.Backend.{Json}
use stock_statistic.Storage.Backend.Ingested.{key_eq, key_eq_iff}

abbrev pub Written : Type 0
Written = List Ohlcv × List SymbolMetadata

abbrev find_row : Key → List Ohlcv → Option Ohlcv
find_row k [] = none
find_row k (r ∷ rs) = if key_eq (primary_key r) k then some r else find_row k rs

abbrev find_metadata : Text → List SymbolMetadata → Option SymbolMetadata
find_metadata t [] = none
find_metadata t (m ∷ ms) = if text_eq m.symbol t then some m else find_metadata t ms

abbrev place_row : Ohlcv → List Ohlcv → List Ohlcv
place_row r [] = r ∷ []
place_row r (x ∷ xs) =
    if ltb r.bar.timestamp x.bar.timestamp then r ∷ x ∷ xs else x ∷ place_row r xs

abbrev without_key : Key → List Ohlcv → List Ohlcv
without_key k xs = filter (λ x. not (key_eq (primary_key x) k)) xs

table : List Ohlcv → List Ohlcv
table [] = []
table (r ∷ rs) = place_row r (without_key (primary_key r) (table rs))

unfoldable pub database : Session Written
unfolding table
database = record {
  merge = λ r s. (r ∷ s.0, s.1);
  commit = λ s. s;
  select_rows = λ p s. filter p (table s.0);
  metadata_of = λ t s. find_metadata t s.1;
  merge_metadata = λ m s. (s.0, m ∷ s.1);
  metadata_symbols = λ s. map (λ m. m.symbol) s.1;
  count_rows = λ s. length (table s.0);
  distinct_symbols = λ s. [];
  distinct_timeframes = λ s. [];
}

abbrev pub row_at : Key → Written → Option Ohlcv
row_at k s = find_row k s.0

abbrev Before : Ohlcv → Ohlcv → Type 0
Before a b = (primary_key a ≢ primary_key b) × (a.bar.timestamp ≤ b.bar.timestamp)

module _ (r : Ohlcv) where
  mem_of_place_row : {q : Ohlcv} (xs : List Ohlcv) → Memᴰ q (place_row r xs) → (q ≡ r) ⊎ Memᴰ q xs
  mem_of_place_row [] m = elim (Memᴰ.cases_cons m) [
    | inl same ↦ inl same
    | inr later ↦ absurd (Memᴰ.not-nil later)
  ]
  mem_of_place_row (x ∷ xs) m = elim (Bool-cases (ltb r.bar.timestamp x.bar.timestamp)) [
    | inl first ↦ Memᴰ.cases_cons (rw first at m)
    | inr behind ↦ elim (Memᴰ.cases_cons (rw behind at m)) [
      | inl same ↦ inr (Memᴰ.head same)
      | inr later ↦ elim (mem_of_place_row xs later) [
        | inl same ↦ inl same
        | inr there ↦ inr (Memᴰ.tail there)
      ]
    ]
  ]

  mem-place_row_self : (xs : List Ohlcv) → Memᴰ r (place_row r xs)
  mem-place_row_self [] = Memᴰ.head refl
  mem-place_row_self (x ∷ xs) = elim (Bool-cases (ltb r.bar.timestamp x.bar.timestamp)) [
    | inl first ↦ rw first (Memᴰ.head refl)
    | inr behind ↦ rw behind (Memᴰ.tail (mem-place_row_self xs))
  ]

  mem-place_row : {q : Ohlcv} (xs : List Ohlcv) → Memᴰ q xs → Memᴰ q (place_row r xs)
  mem-place_row [] m = Memᴰ.tail m
  mem-place_row (x ∷ xs) m = elim (Bool-cases (ltb r.bar.timestamp x.bar.timestamp)) [
    | inl first ↦ rw first (Memᴰ.tail m)
    | inr behind ↦ rw behind (elim (Memᴰ.cases_cons m) [
      | inl same ↦ Memᴰ.head same
      | inr later ↦ Memᴰ.tail (mem-place_row xs later)
    ])
  ]

  All-place_row : (P : Ohlcv → Type 0) (xs : List Ohlcv) → P r → All P xs → All P (place_row r xs)
  All-place_row P [] h k = (h, tt)
  All-place_row P (x ∷ xs) h k = elim (Bool-cases (ltb r.bar.timestamp x.bar.timestamp)) [
    | inl first ↦ rw first (h, k)
    | inr behind ↦ rw behind (k.0, All-place_row P xs h k.1)
  ]

  All-Before :
      (n : ℕ) (xs : List Ohlcv)
      → r.bar.timestamp ≤ n
      → All (λ x. primary_key r ≢ primary_key x) xs
      → All (λ x. n ≤ x.bar.timestamp) xs
      → All (Before r) xs
  All-Before n [] le apart later = tt
  All-Before n (x ∷ xs) le apart later =
      ((apart.0, omega (arith, le, later.0)), All-Before n xs le apart.1 later.1)

  Pairwise-place_row :
      (xs : List Ohlcv)
      → All (λ x. primary_key r ≢ primary_key x) xs
      → Pairwise Before xs
      → Pairwise Before (place_row r xs)
  Pairwise-place_row [] apart h = (tt, tt)
  Pairwise-place_row (x ∷ xs) apart h = elim (Bool-cases (ltb r.bar.timestamp x.bar.timestamp)) [
    | inl first ↦
        rw first
          (All-Before x.bar.timestamp (x ∷ xs) (ground arith) apart (ground arith, times xs h.0), h)
    | inr behind ↦ rw behind (
      All-place_row (Before x) xs ((λ e. apart.0 (sym e)), ground arith) h.0,
      Pairwise-place_row xs apart.1 h.1,
    )
  ]
    where
      times :
          (ys : List Ohlcv) → All (Before x) ys → All (λ y. x.bar.timestamp ≤ y.bar.timestamp) ys
      times [] k = tt
      times (y ∷ ys) k = (k.0.1, times ys k.1)

All_members : (P : Ohlcv → Type 0) (xs : List Ohlcv) → ((x : Ohlcv) → Memᴰ x xs → P x) → All P xs
All_members P [] h = tt
All_members P (x ∷ xs) h = (h x (Memᴰ.head refl), All_members P xs (λ y m. h y (Memᴰ.tail m)))

apart_of_without_key :
    (k : Key) {q : Ohlcv} (xs : List Ohlcv) → Memᴰ q (without_key k xs) → k ≢ primary_key q
apart_of_without_key k {q} xs m e =
    let (_, h) = mem_of_filter (λ x. not (key_eq (primary_key x) k)) xs m in
    let same : key_eq (primary_key q) k ≡ true = (key_eq_iff (primary_key q) k).1 (sym e) in
    cc (rw same at h)

Pairwise-table : (rs : List Ohlcv) → Pairwise Before (table rs)
unfolding table
Pairwise-table [] = tt
Pairwise-table (r ∷ rs) =
    Pairwise-place_row r (without_key (primary_key r) (table rs))
      (All_members _ (without_key (primary_key r) (table rs))
        (λ x m. apart_of_without_key (primary_key r) (table rs) m))
      (Pairwise-filter Before (λ x. not (key_eq (primary_key x) (primary_key r))) (table rs)
        (Pairwise-table rs))

find_row_of_table :
    (rs : List Ohlcv) (q : Ohlcv) → Memᴰ q (table rs) → find_row (primary_key q) rs ≡ some q
unfolding table
find_row_of_table [] q m = absurd (Memᴰ.not-nil m)
find_row_of_table (r ∷ rs) q m =
    elim (mem_of_place_row r (without_key (primary_key r) (table rs)) m) [
      | inl same ↦
          rw ((key_eq_iff (primary_key r) (primary_key q)).1 (ap primary_key (sym same)))
            (ap some (sym same))
      | inr there ↦ elim (Bool-cases (key_eq (primary_key r) (primary_key q))) [
        | inl same ↦ absurd (
            apart_of_without_key (primary_key r) (table rs) there
              ((key_eq_iff (primary_key r) (primary_key q)).0 same))
        | inr other ↦ rw other (find_row_of_table rs q (mem_of_filter _ (table rs) there).0)
      ]
    ]

table_of_find_row :
    (rs : List Ohlcv) (q : Ohlcv) → find_row (primary_key q) rs ≡ some q → Memᴰ q (table rs)
unfolding table
table_of_find_row [] q e = cc
table_of_find_row (r ∷ rs) q e = elim (Bool-cases (key_eq (primary_key r) (primary_key q))) [
  | inl same ↦
      subst (λ x. Memᴰ x (table (r ∷ rs))) (some-injective r q (rw same at e))
        (mem-place_row_self r (without_key (primary_key r) (table rs)))
  | inr other ↦
      let differ : not (key_eq (primary_key q) (primary_key r)) ≡ true =
        elim (Bool-cases (key_eq (primary_key q) (primary_key r))) [
          | inl same ↦ cc (
            other,
            (key_eq_iff (primary_key r) (primary_key q)).1
                (sym ((key_eq_iff (primary_key q) (primary_key r)).0 same)),
          )
          | inr fine ↦ rw fine refl
        ] in
      mem-place_row r (without_key (primary_key r) (table rs)) (
        mem-filter (λ x. not (key_eq (primary_key x) (primary_key r)))
          (table_of_find_row rs q (rw other at e)) differ)
]

StandsBefore-of_Before : (xs : List Ohlcv) → Pairwise Before xs → Pairwise StandsBefore xs
StandsBefore-of_Before [] h = tt
StandsBefore-of_Before (x ∷ xs) h = (weaken xs h.0, StandsBefore-of_Before xs h.1)
  where
    weaken : (ys : List Ohlcv) → All (Before x) ys → All (StandsBefore x) ys
    weaken [] k = tt
    weaken (y ∷ ys) k = ((k.0.0, λ e. k.0.1), weaken ys k.1)

key-find_row : (k : Key) (rs : List Ohlcv) (q : Ohlcv) → find_row k rs ≡ some q → primary_key q ≡ k
key-find_row k [] q e = cc
key-find_row k (r ∷ rs) q e = elim (Bool-cases (key_eq (primary_key r) k)) [
  | inl same ↦
      ap primary_key (sym (some-injective r q (rw same at e)))
      ∙ (key_eq_iff (primary_key r) k).0 same
  | inr other ↦ key-find_row k rs q (rw other at e)
]

symbol-find_metadata :
    (t : Text) (ms : List SymbolMetadata) (m : SymbolMetadata)
    → find_metadata t ms ≡ some m
    → m.symbol ≡ t
symbol-find_metadata t [] m e = cc
symbol-find_metadata t (n ∷ ms) m e = elim (Bool-cases (text_eq n.symbol t)) [
  | inl same ↦
      ap (λ (x : SymbolMetadata). x.symbol) (sym (some-injective n m (rw same at e)))
      ∙ (text_eq_iff n.symbol t).0 same
  | inr other ↦ symbol-find_metadata t ms m (rw other at e)
]

find_row_ne :
    (r : Ohlcv) (k : Key) (rs : List Ohlcv)
    → primary_key r ≢ k
    → find_row k (r ∷ rs) ≡ find_row k rs
find_row_ne r k rs ne = elim (Bool-cases (key_eq (primary_key r) k)) [
  | inl same ↦ absurd (ne ((key_eq_iff (primary_key r) k).0 same))
  | inr other ↦ rw other refl
]

find_metadata_ne :
    (m : SymbolMetadata) (t : Text) (ms : List SymbolMetadata)
    → m.symbol ≢ t
    → find_metadata t (m ∷ ms) ≡ find_metadata t ms
find_metadata_ne m t ms ne = ground (arith, text_eq_iff m.symbol t, ne)

pub database-IsDatabase : IsDatabase database row_at
unfolding database
database-IsDatabase = record {
  row_at_merge_self = λ r s. rw ((key_eq_iff (primary_key r) (primary_key r)).1 refl) refl;
  row_at_merge_ne = λ r k s ne. find_row_ne r k s.0 ne;
  row_at_key = λ k s r e. key-find_row k s.0 r e;
  row_at_commit = λ k s. refl;
  selected = λ p r s m.
      let (there, h) = mem_of_filter p (table s.0) m in (find_row_of_table s.0 r there, h);
  selects = λ p r s e h. mem-filter p (table_of_find_row s.0 r e) h;
  ordered = λ p s.
      StandsBefore-of_Before (filter p (table s.0))
        (Pairwise-filter Before p (table s.0) (Pairwise-table s.0));
  metadata_merge_self = λ m s. rw (text_eq_refl m.symbol) refl;
  metadata_merge_ne = λ m t s ne. find_metadata_ne m t s.1 ne;
  metadata_commit = λ t s. refl;
  metadata_symbol = λ t s m e. symbol-find_metadata t s.1 m e;
}

unfoldable pub frames_of_rows : Pandas (List (Text × Candle))
frames_of_rows = record {
  empty_frame = [];
  frame_with_columns = λ columns. [];
  frame_of_rows = λ rs. map (λ r. (r.symbol, r.bar)) rs;
  where_symbol = λ t f. filter (λ r. text_eq r.0 t) f;
  drop_symbol = λ f. f;
  reset_index = λ f. f;
}

abbrev pub rows_in : List (Text × Candle) → List (Text × Candle)
rows_in f = f

abbrev pub bars_in : List (Text × Candle) → List Candle
bars_in f = map (λ r. r.1) f

pub frames_of_rows-IsPandas : IsPandas frames_of_rows rows_in bars_in
unfolding frames_of_rows
frames_of_rows-IsPandas = record {
  bars_empty = refl;
  bars_columns = λ columns. refl;
  rows_frame = λ rs. refl;
  rows_where = λ t f. refl;
  bars_drop = λ f. refl;
  bars_reset = λ f. refl;
}

abbrev pub braced : Json Text
braced = record {
  is_empty = λ m. elim m [ [] ↦ true | _ ∷ _ ↦ false ];
  dumps = λ m. 123 ∷ m;
  loads = λ t. elim t [ [] ↦ none | _ ∷ m ↦ some m ];
}
