-- ===== src/Storage/Incoming.antt =====
-- The records that ingestion is given (packages/storage/stockstat_backend/storage/backend.py).
use stock_statistic.Common.{
  ℕ, Bool, true, false, Option, none, some, List, [], ◌∷◌, ◌++◌, if◌then◌else◌,
}
use stock_statistic.Common.Integer.{pos}
use stock_statistic.Common.Text.{Text, codes}
use stock_statistic.Common.Dict.{Dict, get}
use stock_statistic.Protocol.Value.{Value, null, bool, int, float}
use stock_statistic.Storage.Tables.{Ohlcv}

-- What the conversions of Python and pandas say of a value; `none` is an exception, and for
-- `as_datetime` a value that is no datetime.
pub record Conversions : Type 0 where
  pub truth : Value → Bool
  pub to_float : Value → Option ℕ
  pub as_datetime : Value → Option ℕ
  pub from_timestamp : Value → Option ℕ
  pub timestamp : Value → Option ℕ

infixl 5 ◌>>=◌
abbrev pub ◌>>=◌ {ℓ κ} : {A : Type ℓ} {B : Type κ} → Option A → (A → Option B) → Option B
none >>= f = none
some a >>= f = f a

-- A row of a data frame: its index label and its cells.
pub record FrameRow : Type 0 where
  pub label : Value
  pub cells : Dict Value

pub data Item : Type 0 where
  record_item : Ohlcv → Item
  dict_item : Dict Value → Item
  other_item : Item

-- The data that `ingest_ohlcv` is called with.
pub data Incoming : Type 0 where
  frame_given : List FrameRow → Incoming
  list_given : List Item → Incoming
  record_given : Ohlcv → Incoming
  other_given : Incoming

-- `d.get(key)` and `d.get(key, default)`
abbrev pub get_or_else : Value → Text → Dict Value → Value
get_or_else default key d = elim (get key d) [ none ↦ default | some v ↦ v ]

-- `a or b`
abbrev pub or_else : (Value → Bool) → Value → Value → Value
or_else truth a b = if truth a then a else b

abbrev pub is_number : Value → Bool
is_number (bool _) = true
is_number (int _) = true
is_number (float _) = true
is_number _ = false

module _ (c : Conversions) (now : ℕ) where
  unfoldable pub parse_dt : Value → Option ℕ
  parse_dt s = elim (c.as_datetime s) [
    | some t ↦ some t
    | none ↦
        if is_number s
        then c.from_timestamp s
        else some (elim (c.timestamp s) [ some t ↦ t | none ↦ now ])
  ]

  -- `float(row[name] if name in row else row[Name])`
  abbrev pub cell : (lower upper : Text) → Dict Value → Option ℕ
  cell lower upper d = elim (get lower d) [
    | some v ↦ c.to_float v
    | none ↦ get upper d >>= c.to_float
  ]

  unfoldable pub record_of_row : (symbol timeframe : Text) → FrameRow → Option Ohlcv
  unfolding parse_dt
  record_of_row symbol timeframe row =
      let column = λ (name : Text). get_or_else null name row.cells in
      let ts = or_else c.truth (column (codes "timestamp")) (
        or_else c.truth (column (codes "Timestamp"))
          (or_else c.truth (column (codes "Date")) row.label)) in
      let zero_volume = get_or_else (int (pos 0)) (codes "Volume") row.cells in
      let volume = get_or_else zero_volume (codes "volume") row.cells in
      do
        t ← parse_dt ts
        o ← cell (codes "open") (codes "Open") row.cells
        h ← cell (codes "high") (codes "High") row.cells
        l ← cell (codes "low") (codes "Low") row.cells
        cl ← cell (codes "close") (codes "Close") row.cells
        v ← c.to_float (or_else c.truth volume (int (pos 0)))
        some (record {
          symbol = symbol;
          timeframe = timeframe;
          bar = record { timestamp = t; open_price = o; high = h; low = l; close = cl; volume = v };
        })

  unfoldable pub record_of_dict : (symbol timeframe : Text) → Dict Value → Option Ohlcv
  unfolding parse_dt
  record_of_dict symbol timeframe d =
      let ts =
        or_else c.truth (get_or_else null (codes "timestamp") d)
          (get_or_else null (codes "Timestamp") d) in
      do
        t ← parse_dt ts
        o ← get (codes "open") d >>= c.to_float
        h ← get (codes "high") d >>= c.to_float
        l ← get (codes "low") d >>= c.to_float
        cl ← get (codes "close") d >>= c.to_float
        v ← c.to_float (get_or_else (int (pos 0)) (codes "volume") d)
        some (record {
          symbol = symbol;
          timeframe = timeframe;
          bar = record { timestamp = t; open_price = o; high = h; low = l; close = cl; volume = v };
        })

  abbrev pub records_of_rows : (symbol timeframe : Text) → List FrameRow → Option (List Ohlcv)
  records_of_rows symbol timeframe [] = some []
  records_of_rows symbol timeframe (row ∷ rows) = do
    r ← record_of_row symbol timeframe row
    rs ← records_of_rows symbol timeframe rows
    some (r ∷ rs)

  abbrev pub records_of_item : (symbol timeframe : Text) → Item → Option (List Ohlcv)
  records_of_item symbol timeframe (record_item r) = some (r ∷ [])
  records_of_item symbol timeframe (dict_item d) =
      record_of_dict symbol timeframe d >>= λ r. some (r ∷ [])
  records_of_item symbol timeframe other_item = some []

  abbrev pub records_of_items : (symbol timeframe : Text) → List Item → Option (List Ohlcv)
  records_of_items symbol timeframe [] = some []
  records_of_items symbol timeframe (item ∷ items) = do
    r ← records_of_item symbol timeframe item
    rs ← records_of_items symbol timeframe items
    some (r ++ rs)

  unfoldable pub normalize_ohlcv_records :
      (symbol timeframe : Text) → Incoming → Option (List Ohlcv)
  normalize_ohlcv_records symbol timeframe (frame_given rows) =
      records_of_rows symbol timeframe rows
  normalize_ohlcv_records symbol timeframe (list_given items) =
      records_of_items symbol timeframe items
  normalize_ohlcv_records symbol timeframe (record_given r) = some (r ∷ [])
  normalize_ohlcv_records symbol timeframe other_given = some []
