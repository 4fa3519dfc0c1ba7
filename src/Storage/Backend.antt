-- ===== src/Storage/Backend.antt =====
-- StorageBackendImpl (packages/storage/stockstat_backend/storage/backend.py).
pub mod Ordered
pub mod Queries
pub mod Ingested
pub mod Metadata
use stock_statistic.Common.{
  ℕ, zero, suc, ◌+◌, ◌<◌, ◌≤◌, Bool, true, false, ◌&&◌, ◌||◌, Option, none, some, List, [], ◌∷◌,
  ◌++◌, map, leb, ltb, if◌then◌else◌, is_some,
}
use stock_statistic.Common.Integer.{ℤ, pos}
use stock_statistic.Common.Text.{Text, codes, text_eq, text_mem}
use stock_statistic.Common.Lists.{length}
use stock_statistic.Common.Dict.{Dict, get, put}
use stock_statistic.Protocol.Value.{Value, null, bool, int, float, text}
use stock_statistic.Storage.Incoming.{
  Conversions, FrameRow, Incoming, Item, cell, dict_item, frame_given, get_or_else, is_number,
  list_given, normalize_ohlcv_records, or_else, other_given, other_item, parse_dt, record_given,
  record_item, record_of_dict, record_of_row, records_of_item, records_of_items, records_of_rows,
  ◌>>=◌,
}
use stock_statistic.Storage.Tables.{Candle, Ohlcv, SymbolMetadata, Session, Pandas}

module _ {S : Type 0} (db : Session S) where
  abbrev pub merge_all : List Ohlcv → S → S
  merge_all [] s = s
  merge_all (r ∷ rs) s = merge_all rs (db.merge r s)

  -- The session's scope commits once more.
  abbrev pub write_records : List Ohlcv → S → Option ℕ × S
  write_records [] s = (some 0, s)
  write_records (r ∷ rs) s = (some (length (r ∷ rs)), db.commit (db.commit (merge_all (r ∷ rs) s)))

  -- `none` is an exception of the normalization, before the session.
  unfoldable pub ingest_ohlcv :
      Conversions → (now : ℕ) (symbol timeframe : Text) → Incoming → S → Option ℕ × S
  unfolding normalize_ohlcv_records
  ingest_ohlcv c now symbol timeframe given s =
      elim (normalize_ohlcv_records c now symbol timeframe given) [
        | none ↦ (none, s)
        | some rs ↦ write_records rs s
      ]

  unfoldable pub list_symbols : S → List Text
  list_symbols s = elim (db.metadata_symbols s) [ [] ↦ db.distinct_symbols s | t ∷ ts ↦ t ∷ ts ]

-- What `get_metadata` returns: `{}`, what the rows say, or what the metadata says. A date is given
-- as a text, made by `isoformat`, and `some (some m)` is read metadata.
pub data Described {ℓ} (J : Type ℓ) : Type ℓ where
  unknown : Described J
  derived : (symbol : Text) (first_seen last_updated : ℕ) → Described J
  described :
      (symbol : Text) (name exchange asset_class : Option Text) (first_seen last_updated : Option ℕ)
      (metadata : Option J)
      → Described J

-- The library json on dictionaries of type `J`; `loads` is `none` where it raises.
pub record Json (J : Type 0) : Type 0 where
  pub is_empty : J → Bool
  pub dumps : J → Text
  pub loads : Text → Option J

module _ {S J : Type 0} (db : Session S) (json : Json J) where
  abbrev pub last_row : Ohlcv → List Ohlcv → Ohlcv
  last_row r [] = r
  last_row r (q ∷ rs) = last_row q rs

  abbrev pub derived_of : Text → List Ohlcv → Described J
  derived_of symbol [] = unknown
  derived_of symbol (r ∷ rs) = derived symbol r.bar.timestamp (last_row r rs).bar.timestamp

  -- `json.loads(text) if text else {}`, where `none` is `{}`.
  abbrev pub read_metadata : Option Text → Option (Option J)
  read_metadata none = some none
  read_metadata (some []) = some none
  read_metadata (some (d ∷ ds)) = json.loads (d ∷ ds) >>= λ m. some (some m)

  -- `none` is an exception of json. The rows of a symbol are taken in the order of their timestamps.
  unfoldable pub get_metadata : Text → S → Option (Described J)
  get_metadata symbol s = elim (db.metadata_of symbol s) [
    | none ↦ some (derived_of symbol (db.select_rows (λ r. text_eq r.symbol symbol) s))
    | some m ↦ read_metadata m.metadata_json >>= λ metadata.
        some
          (described m.symbol m.name m.exchange m.asset_class m.first_seen m.last_updated metadata)
  ]

  -- `json.dumps(metadata) if metadata else None`
  abbrev pub dumps_if_any : Option J → Option Text
  dumps_if_any none = none
  dumps_if_any (some m) = if json.is_empty m then none else some (json.dumps m)

  -- `if value is not None: row.field = value`
  abbrev pub newer : Option Text → Option Text → Option Text
  newer none old = old
  newer (some v) old = some v

  abbrev pub dumps_or : Option J → Option Text → Option Text
  dumps_or none old = old
  dumps_or (some m) old = some (json.dumps m)

  abbrev pub upserted :
      (now : ℕ) (symbol : Text) (name exchange asset_class : Option Text) (metadata : Option J)
      → Option SymbolMetadata
      → SymbolMetadata
  upserted now symbol name exchange asset_class metadata none = record {
    symbol = symbol;
    name = name;
    exchange = exchange;
    asset_class = asset_class;
    first_seen = some now;
    last_updated = some now;
    metadata_json = dumps_if_any metadata;
  }
  upserted now symbol name exchange asset_class metadata (some row) = record row {
    name = newer name row.name;
    exchange = newer exchange row.exchange;
    asset_class = newer asset_class row.asset_class;
    metadata_json = dumps_or metadata row.metadata_json;
    last_updated = some now;
  }

  -- The session's scope commits once more.
  unfoldable pub upsert_metadata :
      (now : ℕ) (symbol : Text) (name exchange asset_class : Option Text) (metadata : Option J)
      → S
      → S
  upsert_metadata now symbol name exchange asset_class metadata s =
      let row = upserted now symbol name exchange asset_class metadata (db.metadata_of symbol s) in
      db.commit (db.commit (db.merge_metadata row s))

pub record StorageStats : Type 0 where
  pub total_rows : ℕ
  pub symbol_count : ℕ
  pub timeframe_count : ℕ

unfoldable pub storage_stats : {S : Type 0} (db : Session S) → S → StorageStats
storage_stats db s = record {
  total_rows = db.count_rows s;
  symbol_count = length (db.distinct_symbols s);
  timeframe_count = length (db.distinct_timeframes s);
}

-- What `fetch_ohlcv` returns: a frame, or one for each symbol.
pub data Fetched (F : Type 0) : Type 0 where
  one_frame : F → Fetched F
  frames : Dict F → Fetched F

abbrev pub frame_columns : List Text
frame_columns =
    codes "timestamp"
    ∷ codes "open"
    ∷ codes "high"
    ∷ codes "low"
    ∷ codes "close"
    ∷ codes "volume"
    ∷ []

-- The query's filters; a bound that is None or an empty text is none.
abbrev pub matches : (symbols : List Text) (timeframe : Text) (start end : Option ℕ) → Ohlcv → Bool
matches symbols timeframe start end r =
    text_mem r.symbol symbols
    && text_eq r.timeframe timeframe
    && elim start [ none ↦ true | some t ↦ leb t r.bar.timestamp ]
    && elim end [ none ↦ true | some t ↦ leb r.bar.timestamp t ]

module _ {F : Type 0} (pd : Pandas F) where
  -- `{sym: ... for sym in symbols}`
  abbrev pub frame_each : (Text → F) → List Text → Dict F → Dict F
  frame_each frame [] d = d
  frame_each frame (t ∷ ts) d = frame_each frame ts (put t (frame t) d)

  abbrev pub frames_for : List Text → List Ohlcv → Fetched F
  frames_for symbols [] =
      if ltb 1 (length symbols)
      then frames (frame_each (λ t. pd.empty_frame) symbols [])
      else one_frame (pd.frame_with_columns frame_columns)
  frames_for symbols (r ∷ rs) =
      let df = pd.frame_of_rows (r ∷ rs) in
      if ltb 1 (length symbols)
      then frames
          (frame_each (λ t. pd.reset_index (pd.drop_symbol (pd.where_symbol t df))) symbols [])
      else one_frame (pd.reset_index (pd.drop_symbol df))

  abbrev pub query_ohlcv :
      {S : Type 0} (db : Session S) (symbols : List Text) (timeframe : Text) (start end : Option ℕ)
      → S
      → Fetched F
  query_ohlcv db symbols timeframe start end s =
      frames_for symbols (db.select_rows (matches symbols timeframe start end) s)

-- `if start: ... _parse_dt(start)`; `none` is an exception.
abbrev pub bound_of : Conversions → (now : ℕ) → Option Text → Option (Option ℕ)
unfolding parse_dt
bound_of c now none = some none
bound_of c now (some []) = some none
bound_of c now (some (d ∷ ds)) = parse_dt c now (text (d ∷ ds)) >>= λ t. some (some t)

unfoldable pub fetch_ohlcv :
    {S F : Type 0} (pd : Pandas F) (db : Session S)
    → Conversions
    → (now : ℕ) (symbols : List Text) (timeframe : Text) (start end : Option Text) → S
    → Option (Fetched F)
unfolding bound_of
fetch_ohlcv pd db c now symbols timeframe start end s = do
  after ← bound_of c now start
  before ← bound_of c now end
  some (query_ohlcv pd db symbols timeframe after before s)
