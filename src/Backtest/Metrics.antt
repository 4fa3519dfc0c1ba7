-- ===== src/Backtest/Metrics.antt =====
-- The statistics of trades in `calculate_metrics`
-- (packages/compute/stockstat_compute/backtest/metrics.py). numpy's mean is a parameter.
pub mod Rounds
use stock_statistic.Common.{ℕ, Bool, Option, none, some, List, [], ◌∷◌, ltb, if◌then◌else◌}
use stock_statistic.Common.Lists.{length, filter, count_if}
use stock_statistic.Backtest.Arith.{Arith, ◌⊕◌, ◌⊖◌, ◌⊗◌, ◌⊘◌, nought}
use stock_statistic.Backtest.Models.{Side, buy, sell, hold}
use stock_statistic.Backtest.Broker.{Trade}

-- The fields of BacktestMetrics that are made of the trades.
pub record TradeStats (N : Type 0) : Type 0 where
  pub win_rate : N
  pub profit_factor : N
  pub n_trades : ℕ
  pub n_winning : ℕ
  pub n_losing : ℕ
  pub avg_win : N
  pub avg_loss : N
  pub avg_trade : N

module _ {N : Type 0} ⦃a : Arith N⦄ where
  abbrev pub pnl_of : (bought sold : Trade N) → N
  pnl_of bought sold = (((sold.price ⊖ bought.price) ⊗ sold.quantity) ⊖ sold.cost) ⊖ bought.cost

  -- The loop of `_compute_trade_pnls`, with `open_buy`.
  unfoldable pub trade_pnls : (open_buy : Option (Trade N)) → List (Trade N) → List N
  trade_pnls b [] = []
  trade_pnls none (t ∷ ts) = elim t.side [ buy ↦ trade_pnls (some t) ts | _ ↦ trade_pnls none ts ]
  trade_pnls (some b) (t ∷ ts) = elim t.side [
    | sell ↦ pnl_of b t ∷ trade_pnls none ts
    | _ ↦ trade_pnls (some b) ts
  ]

  -- `sum(xs)`
  abbrev pub sum_from : N → List N → N
  sum_from total [] = total
  sum_from total (x ∷ xs) = sum_from (total ⊕ x) xs

  -- `np.mean(xs) if xs else 0.0`
  abbrev pub mean_of : (mean : List N → N) → List N → N
  mean_of mean [] = nought
  mean_of mean (x ∷ xs) = mean (x ∷ xs)

  abbrev pub is_win : N → Bool
  is_win p = a.lt nought p

  abbrev pub is_loss : N → Bool
  is_loss p = a.lt p nought

  unfoldable pub trade_stats : (mean : List N → N) → List (Trade N) → TradeStats N
  unfolding trade_pnls
  trade_stats mean trades =
      let pnls = trade_pnls none trades in
      let wins = filter is_win pnls in
      let losses = filter is_loss pnls in
      let gross_profit = sum_from nought wins in
      let gross_loss = a.magnitude (sum_from nought losses) in
      let n_winning : ℕ = count_if is_win pnls in
      let n_trades : ℕ = length trades in
      record {
        win_rate = if ltb 0 n_trades then a.literal n_winning 0 ⊘ a.literal n_trades 0 else nought;
        profit_factor =
            if a.lt nought gross_loss
            then gross_profit ⊘ gross_loss
            else if a.lt nought gross_profit
            then a.infinity
            else nought;
        n_trades = n_trades;
        n_winning = n_winning;
        n_losing = count_if is_loss pnls;
        avg_win = mean_of mean wins;
        avg_loss = mean_of mean losses;
        avg_trade = mean_of mean pnls;
      }
