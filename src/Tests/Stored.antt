-- ===== src/Tests/Stored.antt =====
-- The storage's cache and tables at concrete inputs.
use stock_statistic.Common.{
  ℕ, ◌≡◌, ◌≢◌, refl, true, false, Option, none, some, List, [], ◌∷◌, arith, inr,
}
use stock_statistic.Common.Text.{Text, codes, text_eq, text_eq_iff, text_mem}
use stock_statistic.Common.Dict.{get, put, erase}
use stock_statistic.Common.Integer.{pos}
use stock_statistic.Protocol.Value.{Value, int, null}
use stock_statistic.Storage.QueryCache.{
  CacheCall, get_call, put_call, new_cache, cache_get, cache_put, run_calls, trim,
}
use stock_statistic.Storage.QueryCache.Recent.{cache_get-run_calls}
use stock_statistic.Storage.Tables.{Candle, Ohlcv}
use stock_statistic.Storage.Incoming.{
  Conversions, Incoming, Item, dict_item, list_given, normalize_ohlcv_records, record_of_dict,
}
use stock_statistic.Storage.Backend.{ingest_ohlcv, query_ohlcv, get_metadata, upsert_metadata}
use stock_statistic.Storage.Backend.Queries.{bars_for, query_ohlcv_many}
use stock_statistic.Storage.Backend.Ingested.{
  newest, latest, ListsCandles, query_ohlcv-ingest_ohlcv,
}
use stock_statistic.Storage.Backend.Metadata.{Updated, get_metadata-upsert_metadata}
use stock_statistic.Tests.Database.{
  Written, database, row_at, database-IsDatabase, frames_of_rows, rows_in, bars_in,
  frames_of_rows-IsPandas, braced,
}

abbrev three_calls : List (ℕ × CacheCall ℕ)
three_calls =
    (5, put_call (codes "b") 8) ∷ (6, get_call (codes "b")) ∷ (7, put_call (codes "c") 9) ∷ []

other_key : (k : Text) → text_eq k (codes "a") ≡ false → k ≢ codes "a"
other_key k h e = cc ((text_eq_iff k (codes "a")).1 e, h)

cache_get-run_calls_example :
    (cache_get 8 (codes "a") (run_calls three_calls (cache_put 4 (codes "a") 7 (new_cache 4 10)))).1
    ≡ some 7
cache_get-run_calls_example =
    cache_get-run_calls (codes "a") 7 4 8 (new_cache 4 10) three_calls
      (unfold text_eq in
        (
          other_key (codes "b") refl,
          (other_key (codes "b") refl, (other_key (codes "c") refl, tt)),
        ))
      (omega arith) (inr (omega arith))

-- In a cache with room for one, the second key takes the place of the first.
evicted :
    (cache_get 8 (codes "a") (run_calls three_calls (cache_put 4 (codes "a") 7 (new_cache 1 10)))).1
    ≡ none
unfolding cache_get cache_put run_calls trim get put erase text_eq
evicted = refl

abbrev whole_numbers : Value → Option ℕ
whole_numbers (int (pos n)) = some n
whole_numbers _ = none

abbrev conversions : Conversions
conversions = record {
  truth = λ v. elim v [ null ↦ false | _ ↦ true ];
  to_float = whole_numbers;
  as_datetime = λ v. none;
  from_timestamp = whole_numbers;
  timestamp = λ v. none;
}

abbrev item_at : (time close : ℕ) → Item
item_at time close = dict_item (
    (codes "timestamp", int (pos time))
    ∷ (codes "open", int (pos 1))
    ∷ (codes "high", int (pos 9))
    ∷ (codes "low", int (pos 1))
    ∷ (codes "close", int (pos close))
    ∷ [])

abbrev ohlcv_at : (time close : ℕ) → Ohlcv
ohlcv_at time close = record {
  symbol = codes "BTC";
  timeframe = codes "1d";
  bar = record { timestamp = time; open_price = 1; high = 9; low = 1; close = close; volume = 0 };
}

abbrev given_items : Incoming
given_items = list_given (item_at 20 5 ∷ item_at 10 6 ∷ item_at 20 7 ∷ [])

abbrev given_records : List Ohlcv
given_records = ohlcv_at 20 5 ∷ ohlcv_at 10 6 ∷ ohlcv_at 20 7 ∷ []

given_items-records :
    normalize_ohlcv_records conversions 0 (codes "BTC") (codes "1d") given_items
    ≡ some given_records
unfolding normalize_ohlcv_records record_of_dict get text_eq
given_items-records = refl

abbrev nothing_written : Written
nothing_written = ([], [])

query_ohlcv-ingest_ohlcv_example :
    ((ingest_ohlcv database conversions 0 (codes "BTC") (codes "1d") given_items nothing_written).0
      ≡ some 3)
    × ((bs : List Candle) × (bars_for bars_in (codes "BTC") (
            query_ohlcv frames_of_rows database
              (codes "BTC" ∷ [])
              (codes "1d")
              none
              (some 30)
              (ingest_ohlcv database conversions 0
                (codes "BTC")
                (codes "1d")
                given_items
                nothing_written).1)
          ≡ some bs)
        × ListsCandles
            (codes "BTC")
            (codes "1d")
            none
            (some 30)
            (λ u.
              newest
                (latest (codes "BTC", codes "1d", u) given_records)
                (row_at (codes "BTC", codes "1d", u) nothing_written))
            bs)
query_ohlcv-ingest_ohlcv_example =
    query_ohlcv-ingest_ohlcv database row_at database-IsDatabase frames_of_rows rows_in bars_in
      frames_of_rows-IsPandas conversions 0 (codes "BTC") (codes "1d") given_items given_records
      nothing_written (codes "BTC") (codes "1d") none (some 30) given_items-records

query_ohlcv_many_example :
    bars_for bars_in (codes "BTC") (
      query_ohlcv frames_of_rows database
        (codes "ETH" ∷ codes "BTC" ∷ [])
        (codes "1d")
        none
        none
        (given_records, []))
    ≡ bars_for bars_in (codes "BTC") (
        query_ohlcv frames_of_rows database
          (codes "BTC" ∷ [])
          (codes "1d")
          none
          none
          (given_records, []))
query_ohlcv_many_example =
    query_ohlcv_many database row_at database-IsDatabase frames_of_rows rows_in bars_in
      frames_of_rows-IsPandas (codes "BTC") (codes "ETH" ∷ codes "BTC" ∷ []) (codes "1d") none none
      (given_records, []) (omega arith) (unfold text_mem text_eq in refl)

get_metadata-upsert_metadata_example :
    Updated braced 3 9
      (codes "BTC")
      (some (codes "Bitcoin"))
      none
      (some (codes "crypto"))
      none
      (some (codes "binance"))
      (some [])
      (codes "x")
      (get_metadata database braced (codes "BTC") (
        upsert_metadata database braced 9
          (codes "BTC")
          none
          (some (codes "binance"))
          (some [])
          none
          (upsert_metadata database braced 3
            (codes "BTC")
            (some (codes "Bitcoin"))
            none
            (some (codes "crypto"))
            (some (codes "x"))
            nothing_written)))
get_metadata-upsert_metadata_example =
    get_metadata-upsert_metadata database row_at database-IsDatabase braced (λ m. refl)
      (λ m e. cc e) 3 9 (codes "BTC") (some (codes "Bitcoin")) none (some (codes "crypto")) none
      (some (codes "binance")) (some []) (codes "x") nothing_written (unfold database in refl)
