-- ===== src/Storage/Collector.antt =====
-- ScheduledCollector (packages/storage/stockstat_backend/scheduler/collector.py). The adapters and
-- the storage are parameters: an adapter fetches a frame or raises, and the storage takes it or
-- raises, in a state of its own.
pub mod Account
use stock_statistic.Common.{
  ℕ, ◌+◌, Bool, true, false, not, ◌&&◌, Option, none, some, List, [], ◌∷◌, ◌++◌,
}
use stock_statistic.Common.Lists.{filter}
use stock_statistic.Common.Text.{Text, text_eq, codes}
use stock_statistic.Common.Dict.{Dict, get}
use stock_statistic.Protocol.Value.{Value}

pub record Subscription : Type 0 where
  pub symbol : Text
  pub timeframe : Text
  pub source : Text

pub record Collector : Type 0 where
  pub subscriptions : List Subscription
  pub running : Bool

pub record Failure : Type 0 where
  pub symbol : Text
  pub error : Text

pub record Results : Type 0 where
  pub success : ℕ
  pub failed : ℕ
  pub errors : List Failure

-- A value, or the message of an exception.
pub data Tried (A : Type 0) : Type 0 where
  gave : A → Tried A
  threw : (message : Text) → Tried A

-- `fetch_ohlcv` of an adapter, with its construction, and `ingest_ohlcv` of the storage.
pub record Sources (S : Type 0) : Type 0 where
  pub adapters : Dict (Text → Text → Tried Value)
  pub ingest_ohlcv : Text → Text → Value → S → Tried ℕ × S

unfoldable pub subscribe : (symbol timeframe source : Text) → Collector → Collector
subscribe symbol timeframe source c = record c {
  subscriptions =
      c.subscriptions ++ record { symbol = symbol; timeframe = timeframe; source = source } ∷ [];
}

-- The subscriptions that `unsubscribe` keeps.
abbrev pub is_kept : (symbol timeframe : Text) → Subscription → Bool
is_kept symbol timeframe s = not (text_eq s.symbol symbol && text_eq s.timeframe timeframe)

unfoldable pub unsubscribe : (symbol timeframe : Text) → Collector → Collector
unsubscribe symbol timeframe c = record c {
  subscriptions = filter (is_kept symbol timeframe) c.subscriptions;
}

-- Whether a thread is started, and the collector.
unfoldable pub start : Collector → Bool × Collector
start c = elim c.running [ true ↦ (false, c) | false ↦ (true, record c { running = true }) ]

unfoldable pub stop : Collector → Collector
stop c = record c { running = false }

module _ {S : Type 0} (sources : Sources S) where
  abbrev pub ingested : Subscription → Tried Value → S → Tried ℕ × S
  ingested sub (threw message) s = (threw message, s)
  ingested sub (gave frame) s = sources.ingest_ohlcv sub.symbol sub.timeframe frame s

  -- The body of the `try`.
  unfoldable pub collect : Subscription → S → Tried ℕ × S
  collect sub s = elim (get sub.source sources.adapters) [
    | none ↦ (threw (codes "Unknown adapter: " ++ sub.source), s)
    | some fetch ↦ ingested sub (fetch sub.symbol sub.timeframe) s
  ]

  abbrev pub tally : Subscription → Tried ℕ → Results → Results
  tally sub (gave n) r = record r { success = r.success + 1 }
  tally sub (threw message) r = record r {
    failed = r.failed + 1;
    errors = r.errors ++ record { symbol = sub.symbol; error = message } ∷ [];
  }

  -- The loop of `run_once`.
  unfoldable pub collect_each : List Subscription → Results × S → Results × S
  unfolding collect
  collect_each [] state = state
  collect_each (sub ∷ subs) (r, s) =
      let (tried, s') = collect sub s in collect_each subs (tally sub tried r, s')

  unfoldable pub run_once : Collector → S → Results × S
  unfolding collect_each
  run_once c s = collect_each c.subscriptions (record { success = 0; failed = 0; errors = [] }, s)
