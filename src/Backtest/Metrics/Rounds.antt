-- ===== src/Backtest/Metrics/Rounds.antt =====
-- The share of winning trades (packages/compute/stockstat_compute/backtest/metrics.py).
use stock_statistic.Common.{ℕ, ◌+◌, ◌*◌, ◌≤◌, Bool, Option, none, some, List, [], ◌∷◌, arith}
use stock_statistic.Common.Lists.{length, count_if}
use stock_statistic.Backtest.Arith.{Arith}
use stock_statistic.Backtest.Broker.{Trade}
use stock_statistic.Backtest.Metrics.{trade_pnls, trade_stats, is_win}

count_if_le {ℓ} : {A : Type ℓ} (p : A → Bool) (xs : List A) → count_if p xs ≤ length xs
count_if_le p [] = omega arith
count_if_le p (x ∷ xs) = ground (arith, count_if_le p xs)

module _ {N : Type 0} ⦃a : Arith N⦄ where
  abbrev held : Option (Trade N) → ℕ
  held none = 0
  held (some b) = 1

  -- A profit or loss takes a purchase and a sale.
  pairs :
      (b : Option (Trade N)) (ts : List (Trade N))
      → 2 * length (trade_pnls b ts) ≤ held b + length ts
  unfolding trade_pnls
  pairs b [] = omega arith
  pairs none (t ∷ ts) = ground (arith, pairs none ts, pairs (some t) ts)
  pairs (some b) (t ∷ ts) = ground (arith, pairs none ts, pairs (some b) ts)

  -- The count of winning trades is of pairs of a purchase and a sale, and that of trades is of
  -- single ones: never more than half of the trades win.
  pub winning_bounds :
      (mean : List N → N) (trades : List (Trade N))
      → 2 * (trade_stats mean trades).n_winning ≤ (trade_stats mean trades).n_trades
  unfolding trade_stats
  winning_bounds mean trades =
      omega (arith, pairs none trades, count_if_le is_win (trade_pnls none trades))
