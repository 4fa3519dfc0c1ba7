-- ===== src/Storage/Tables.antt =====
-- The tables of the storage's database (packages/storage/stockstat_backend/models/ohlcv.py), and
-- what the program uses of SQLAlchemy and pandas.
use stock_statistic.Common.{ℕ, ◌≤◌, ◌≡◌, ◌≢◌, Bool, true, Option, some, List, [], map}
use mathlib.Core.List.{Memᴰ}
use stock_statistic.Common.Text.{Text, text_eq}
use stock_statistic.Common.Lists.{filter}
use stock_statistic.Common.Members.{Pairwise}

-- The prices and the volume are bit patterns of floats, a timestamp is a count of time units.
pub record Candle : Type 0 where
  pub timestamp : ℕ
  pub open_price : ℕ
  pub high : ℕ
  pub low : ℕ
  pub close : ℕ
  pub volume : ℕ

pub record Ohlcv : Type 0 where
  pub symbol : Text
  pub timeframe : Text
  pub bar : Candle

pub record SymbolMetadata : Type 0 where
  pub symbol : Text
  pub name : Option Text
  pub exchange : Option Text
  pub asset_class : Option Text
  pub first_seen : Option ℕ
  pub last_updated : Option ℕ
  pub metadata_json : Option Text

-- The composite primary key.
abbrev pub Key : Type 0
Key = Text × Text × ℕ

abbrev pub primary_key : Ohlcv → Key
primary_key r = (r.symbol, r.timeframe, r.bar.timestamp)

-- The session of a database of state `S`. `merge` and `merge_metadata` write the row over the one
-- with its primary key; `select_rows` filters, ordered by symbol and timestamp.
pub record Session (S : Type 0) : Type 0 where
  pub merge : Ohlcv → S → S
  pub commit : S → S
  pub select_rows : (Ohlcv → Bool) → S → List Ohlcv
  pub metadata_of : Text → S → Option SymbolMetadata
  pub merge_metadata : SymbolMetadata → S → S
  pub metadata_symbols : S → List Text
  pub count_rows : S → ℕ
  pub distinct_symbols : S → List Text
  pub distinct_timeframes : S → List Text

-- Of two rows of a query: each row stands once, and those of a symbol by their timestamps.
abbrev pub StandsBefore : Ohlcv → Ohlcv → Type 0
StandsBefore a b =
    (primary_key a ≢ primary_key b) × (a.symbol ≡ b.symbol → a.bar.timestamp ≤ b.bar.timestamp)

-- The documented behaviour of a database, where `row_at` is the row under a primary key.
pub record IsDatabase {S : Type 0} (db : Session S) (row_at : Key → S → Option Ohlcv) : Type 0 where
  pub row_at_merge_self : (r : Ohlcv) (s : S) → row_at (primary_key r) (db.merge r s) ≡ some r
  pub row_at_merge_ne :
      (r : Ohlcv) (k : Key) (s : S) → primary_key r ≢ k → row_at k (db.merge r s) ≡ row_at k s
  pub row_at_key : (k : Key) (s : S) (r : Ohlcv) → row_at k s ≡ some r → primary_key r ≡ k
  pub row_at_commit : (k : Key) (s : S) → row_at k (db.commit s) ≡ row_at k s
  pub selected :
      (p : Ohlcv → Bool) (r : Ohlcv) (s : S)
      → Memᴰ r (db.select_rows p s)
      → (row_at (primary_key r) s ≡ some r) × (p r ≡ true)
  pub selects :
      (p : Ohlcv → Bool) (r : Ohlcv) (s : S)
      → row_at (primary_key r) s ≡ some r
      → p r ≡ true
      → Memᴰ r (db.select_rows p s)
  pub ordered : (p : Ohlcv → Bool) (s : S) → Pairwise StandsBefore (db.select_rows p s)
  pub metadata_merge_self :
      (m : SymbolMetadata) (s : S) → db.metadata_of m.symbol (db.merge_metadata m s) ≡ some m
  pub metadata_merge_ne :
      (m : SymbolMetadata) (symbol : Text) (s : S)
      → m.symbol ≢ symbol
      → db.metadata_of symbol (db.merge_metadata m s) ≡ db.metadata_of symbol s
  pub metadata_commit :
      (symbol : Text) (s : S) → db.metadata_of symbol (db.commit s) ≡ db.metadata_of symbol s
  pub metadata_symbol :
      (symbol : Text) (s : S) (m : SymbolMetadata)
      → db.metadata_of symbol s ≡ some m
      → m.symbol ≡ symbol

-- The operations of pandas on frames of type `F` that a query is answered with.
pub record Pandas (F : Type 0) : Type 0 where
  pub empty_frame : F
  pub frame_with_columns : List Text → F
  pub frame_of_rows : List Ohlcv → F
  pub where_symbol : Text → F → F
  pub drop_symbol : F → F
  pub reset_index : F → F

-- Their documented behaviour, where `rows` reads a frame with the column "symbol" and `bars` one
-- without.
pub record IsPandas {F : Type 0} (pd : Pandas F) (rows : F → List (Text × Candle))
    (bars : F → List Candle) : Type 0 where
  pub bars_empty : bars pd.empty_frame ≡ []
  pub bars_columns : (columns : List Text) → bars (pd.frame_with_columns columns) ≡ []
  pub rows_frame : (rs : List Ohlcv) → rows (pd.frame_of_rows rs) ≡ map (λ r. (r.symbol, r.bar)) rs
  pub rows_where :
      (symbol : Text) (f : F)
      → rows (pd.where_symbol symbol f) ≡ filter (λ r. text_eq r.0 symbol) (rows f)
  pub bars_drop : (f : F) → bars (pd.drop_symbol f) ≡ map (λ r. r.1) (rows f)
  pub bars_reset : (f : F) → bars (pd.reset_index f) ≡ bars f
