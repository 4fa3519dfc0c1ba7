-- ===== src/Tests/Collecting.antt =====
-- A collection with an unknown adapter, and a wait for a remote task.
use stock_statistic.Common.{ℕ, ◌+◌, ◌≡◌, refl, true, [], ◌∷◌}
use stock_statistic.Common.Text.{codes, text_eq}
use stock_statistic.Protocol.Value.{object}
use stock_statistic.Dispatch.State.{new_info, running, completed}
use stock_statistic.Common.Dict.{get}
use stock_statistic.Compute.Remote.{Seen}
use stock_statistic.Storage.Collector.{Collector, gave, Sources, run_once}
use stock_statistic.Storage.Collector.Account.{Reports, failures, run_once-Reports}

abbrev counting : Sources ℕ
counting = record {
  adapters = (codes "binance", λ symbol timeframe. gave (object 1)) ∷ [];
  ingest_ohlcv = λ symbol timeframe frame n. (gave 1, n + 1);
}

abbrev two_subscriptions : Collector
two_subscriptions = record {
  subscriptions =
      record { symbol = codes "A"; timeframe = codes "1d"; source = codes "nowhere" }
      ∷ record { symbol = codes "B"; timeframe = codes "1d"; source = codes "binance" }
      ∷ [];
  running = true;
}

run_once-Reports_example :
    Reports 2
      (failures counting two_subscriptions.subscriptions 0)
      (record { success = 0; failed = 0; errors = [] })
      (run_once counting two_subscriptions 0).0
run_once-Reports_example = run_once-Reports counting two_subscriptions 0

collected : (run_once counting two_subscriptions 0).1 ≡ 1
unfolding run_once get text_eq
collected = refl

abbrev first_round : Seen
first_round = record { now = 100; info = record (new_info 1 (codes "t")) { state = running } }

abbrev second_round : Seen
second_round = record { now = 103; info = record (new_info 1 (codes "t")) { state = completed } }
