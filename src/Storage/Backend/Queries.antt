-- ===== src/Storage/Backend/Queries.antt =====
-- What queries answer (packages/storage/stockstat_backend/storage/backend.py).
use mathlib.Core.List.{Memᴰ}
use stock_statistic.Common.{
  ℕ, ◌<◌, ◌≤◌, ◌≡◌, refl, sym, ap, ◌∙◌, true, Option, none, some, List, [], ◌∷◌, map, ltb,
  if◌then◌else◌, arith, inl, inr, Bool-cases,
}
use stock_statistic.Common.Text.{Text, text_eq, text_mem, text_eq_iff}
use stock_statistic.Common.Lists.{length, filter}
use stock_statistic.Common.Members.{mem-filter, mem_of_filter, Pairwise-filter}
use stock_statistic.Common.Dict.{Dict, get, put, get-put}
use stock_statistic.Storage.Tables.{
  Candle, Ohlcv, Session, Pandas, Key, StandsBefore, IsDatabase, IsPandas,
}
use stock_statistic.Storage.Backend.Ordered.{IsOf, eq_of_members, Pairwise-Earlier}
use stock_statistic.Storage.Backend.{
  Fetched, one_frame, frames, matches, frame_each, frames_for, query_ohlcv, frame_columns,
}

abbrev pub map_option {ℓ κ} : {A : Type ℓ} {B : Type κ} → (A → B) → Option A → Option B
map_option f none = none
map_option f (some a) = some (f a)

-- The bars that an answer has for a symbol.
abbrev pub bars_for : {F : Type 0} → (F → List Candle) → Text → Fetched F → Option (List Candle)
bars_for bars symbol (one_frame f) = some (bars f)
bars_for bars symbol (frames d) = map_option bars (get symbol d)

get-frame_each :
    {F : Type 0} (pd : Pandas F) (frame : Text → F) (t : Text) (ts : List Text) (d : Dict F)
    → get t (frame_each pd frame ts d) ≡ (if text_mem t ts then some (frame t) else get t d)
unfolding text_mem
get-frame_each pd frame t [] d = refl
get-frame_each pd frame t (u ∷ ts) d = ground (
  arith,
  get-frame_each pd frame t ts (put u (frame u) d),
  get-put u t (frame u) d,
  text_eq_iff u t,
  text_eq_iff t u,
)

-- Within the bounds of a query.
abbrev pub InRange : (start end : Option ℕ) → ℕ → Type 0
InRange start end t =
    elim start [ none ↦ Unit {0} | some a ↦ a ≤ t ] × elim end [ none ↦ Unit {0} | some b ↦ t ≤ b ]

pub matches_one :
    (t timeframe : Text) (start end : Option ℕ) (r : Ohlcv)
    → matches (t ∷ []) timeframe start end r ≡ true
    → IsOf t timeframe r × InRange start end r.bar.timestamp
unfolding text_mem
matches_one t timeframe none none r h =
    ground (arith, text_eq_iff r.symbol t, text_eq_iff r.timeframe timeframe)
matches_one t timeframe none (some b) r h =
    ground (arith, text_eq_iff r.symbol t, text_eq_iff r.timeframe timeframe)
matches_one t timeframe (some a) none r h =
    ground (arith, text_eq_iff r.symbol t, text_eq_iff r.timeframe timeframe)
matches_one t timeframe (some a) (some b) r h =
    ground (arith, text_eq_iff r.symbol t, text_eq_iff r.timeframe timeframe)

pub matches_of_IsOf :
    (t timeframe : Text) (start end : Option ℕ) (r : Ohlcv)
    → IsOf t timeframe r
    → InRange start end r.bar.timestamp
    → matches (t ∷ []) timeframe start end r ≡ true
unfolding text_mem
matches_of_IsOf t timeframe none none r h k =
    ground (arith, text_eq_iff r.symbol t, text_eq_iff r.timeframe timeframe)
matches_of_IsOf t timeframe none (some b) r h k =
    ground (arith, text_eq_iff r.symbol t, text_eq_iff r.timeframe timeframe)
matches_of_IsOf t timeframe (some a) none r h k =
    ground (arith, text_eq_iff r.symbol t, text_eq_iff r.timeframe timeframe)
matches_of_IsOf t timeframe (some a) (some b) r h k =
    ground (arith, text_eq_iff r.symbol t, text_eq_iff r.timeframe timeframe)

-- Of the rows that a query of several symbols finds, those of a symbol.
matches_of_many :
    (t : Text) (ts : List Text) (timeframe : Text) (start end : Option ℕ) (r : Ohlcv)
    → matches ts timeframe start end r ≡ true
    → text_eq r.symbol t ≡ true
    → matches (t ∷ []) timeframe start end r ≡ true
unfolding text_mem
matches_of_many t ts timeframe start end r h e = rw e (ground (arith, h))

matches_many :
    (t : Text) (ts : List Text) (timeframe : Text) (start end : Option ℕ) (r : Ohlcv)
    → text_mem t ts ≡ true
    → matches (t ∷ []) timeframe start end r ≡ true
    → matches ts timeframe start end r ≡ true
unfolding text_mem
matches_many t ts timeframe start end r there h =
    let e : r.symbol ≡ t = ground (arith, text_eq_iff r.symbol t) in
    rw (e, there) (ground (arith, h))

module _ {S F : Type 0} (db : Session S) (row_at : Key → S → Option Ohlcv)
    (documented : IsDatabase db row_at) (pd : Pandas F) (rows : F → List (Text × Candle))
    (bars : F → List Candle) (pandas : IsPandas pd rows bars) where
  rows_of_symbol :
      (t : Text) (rs : List Ohlcv)
      → map
          (λ (r : Text × Candle). r.1)
          (filter (λ r. text_eq r.0 t) (map (λ r. (r.symbol, r.bar)) rs))
        ≡ map (λ r. r.bar) (filter (λ r. text_eq r.symbol t) rs)
  rows_of_symbol t [] = refl
  rows_of_symbol t (r ∷ rs) = elim (Bool-cases (text_eq r.symbol t)) [
    | inl keep ↦ rw keep (ap (λ l. r.bar ∷ l) (rows_of_symbol t rs))
    | inr skip ↦ rw skip (rows_of_symbol t rs)
  ]

  -- The rows with a symbol, of a query of several and of a query of it alone.
  filter-select_rows :
      (t : Text) (ts : List Text) (timeframe : Text) (start end : Option ℕ) (s : S)
      → text_mem t ts ≡ true
      → filter (λ r. text_eq r.symbol t) (db.select_rows (matches ts timeframe start end) s)
        ≡ db.select_rows (matches (t ∷ []) timeframe start end) s
  unfolding text_mem
  filter-select_rows t ts timeframe start end s there =
      let p = matches ts timeframe start end in
      let q = matches (t ∷ []) timeframe start end in
      let f = λ (r : Ohlcv). text_eq r.symbol t in
      let one = λ (r : Ohlcv) (m : Memᴰ r (db.select_rows q s)).
        matches_one t timeframe start end r (documented.selected q r s m).1 in
      let to = λ (r : Ohlcv) (m : Memᴰ r (filter f (db.select_rows p s))).
        let (found, e) = mem_of_filter f (db.select_rows p s) m in
        let (stored, h) = documented.selected p r s found in
        documented.selects q r s stored (matches_of_many t ts timeframe start end r h e) in
      let from = λ (r : Ohlcv) (m : Memᴰ r (db.select_rows q s)).
        let (stored, h) = documented.selected q r s m in
        mem-filter f
          (documented.selects p r s stored (matches_many t ts timeframe start end r there h))
          ((text_eq_iff r.symbol t).1 (one r m).0.0) in
      eq_of_members (filter f (db.select_rows p s)) (db.select_rows q s)
        (Pairwise-Earlier t timeframe (filter f (db.select_rows p s)) (λ r m. (one r (to r m)).0)
          (Pairwise-filter StandsBefore f (db.select_rows p s) (documented.ordered p s)))
        (Pairwise-Earlier t timeframe (db.select_rows q s) (λ r m. (one r m).0)
          (documented.ordered q s))
        to from

  -- An answer has the bars of the rows that were found.
  pub bars_for-frames_for_one :
      (t : Text) (rs : List Ohlcv)
      → bars_for bars t (frames_for pd (t ∷ []) rs) ≡ some (map (λ r. r.bar) rs)
  bars_for-frames_for_one t [] = ap some (pandas.bars_columns frame_columns)
  bars_for-frames_for_one t (r ∷ rs) = ap some (
      pandas.bars_reset (pd.drop_symbol (pd.frame_of_rows (r ∷ rs)))
      ∙ pandas.bars_drop (pd.frame_of_rows (r ∷ rs))
      ∙ ap (map (λ (q : Text × Candle). q.1)) (pandas.rows_frame (r ∷ rs))
      ∙ bars_of_rows (r ∷ rs))
    where
      bars_of_rows :
          (xs : List Ohlcv)
          → map (λ (q : Text × Candle). q.1) (map (λ x. (x.symbol, x.bar)) xs) ≡ map (λ x. x.bar) xs
      bars_of_rows [] = refl
      bars_of_rows (x ∷ xs) = ap (λ l. x.bar ∷ l) (bars_of_rows xs)

  bars_for-frames_for :
      (t : Text) (ts : List Text) (rs : List Ohlcv)
      → 1 < length ts
      → text_mem t ts ≡ true
      → bars_for bars t (frames_for pd ts rs)
        ≡ some (map (λ r. r.bar) (filter (λ r. text_eq r.symbol t) rs))
  bars_for-frames_for t ts [] many there =
      let test : ltb 1 (length ts) ≡ true = ground arith in
      rw test (
        rw (get-frame_each pd (λ u. pd.empty_frame) t ts [], there, map_option)
          (ap some pandas.bars_empty))
  bars_for-frames_for t ts (r ∷ rs) many there =
      let test : ltb 1 (length ts) ≡ true = ground arith in
      let df = pd.frame_of_rows (r ∷ rs) in
      let frame = λ (u : Text). pd.reset_index (pd.drop_symbol (pd.where_symbol u df)) in
      rw test (
        rw (get-frame_each pd frame t ts [], there, map_option)
          (ap some (
            pandas.bars_reset (pd.drop_symbol (pd.where_symbol t df))
            ∙ pandas.bars_drop (pd.where_symbol t df)
            ∙ ap (map (λ (q : Text × Candle). q.1)) (
                pandas.rows_where t df
                ∙ ap (filter (λ (q : Text × Candle). text_eq q.0 t)) (pandas.rows_frame (r ∷ rs)))
            ∙ rows_of_symbol t (r ∷ rs))))

  -- A query of several symbols answers for each of them as a query of it alone.
  pub query_ohlcv_many :
      (t : Text) (ts : List Text) (timeframe : Text) (start end : Option ℕ) (s : S)
      → 1 < length ts
      → text_mem t ts ≡ true
      → bars_for bars t (query_ohlcv pd db ts timeframe start end s)
        ≡ bars_for bars t (query_ohlcv pd db (t ∷ []) timeframe start end s)
  query_ohlcv_many t ts timeframe start end s many there =
      bars_for-frames_for t ts (db.select_rows (matches ts timeframe start end) s) many there
      ∙ ap (λ rs. some (map (λ r. r.bar) rs)) (filter-select_rows t ts timeframe start end s there)
      ∙ sym (bars_for-frames_for_one t (db.select_rows (matches (t ∷ []) timeframe start end) s))
