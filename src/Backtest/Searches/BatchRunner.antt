-- ===== src/Backtest/Searches/BatchRunner.antt =====
-- Batches of backtests (packages/compute/stockstat_compute/backtest/batch_runner.py).
use stock_statistic.Common.{◌+◌, ℕ, ◌*◌, some, List, [], ◌∷◌, ◌++◌}
use stock_statistic.Common.Text.{Text, codes}
use stock_statistic.Common.Lists.{length}
use stock_statistic.Common.Dict.{Dict}
use stock_statistic.Backtest.Arith.{Arith, nought}
use stock_statistic.Backtest.Models.{Bar}
use stock_statistic.Backtest.Engine.{Strategy}
use stock_statistic.Backtest.Results.{BacktestResult}
use stock_statistic.Backtest.Searches.{
  Attempt, Cell, Settings, count_cell, done, engine_run, error_cell, raised, real, text_cell,
}

-- The fee models of a batch: None, one name, or a list.
pub data FeeModels : Type 0 where
  default_fees : FeeModels
  one_fee : Text → FeeModels
  fee_list : List Text → FeeModels

abbrev pub fees_of : FeeModels → List Text
fees_of default_fees = codes "default" ∷ []
fees_of (one_fee fee) = fee ∷ []
fees_of (fee_list fees) = fees

module _ {N : Type 0} ⦃a : Arith N⦄ where
  -- The row of a strategy under a fee model.
  abbrev pub batch_row : Settings N → (name fee : Text) → Attempt (BacktestResult N) → Dict (Cell N)
  batch_row settings name fee (raised message) =
      (codes "strategy", text_cell name)
      ∷ (codes "fee_model", text_cell fee)
      ∷ (codes "error", error_cell (some (some message)))
      ∷ real (codes "total_return") nought
      ∷ real (codes "sharpe") nought
      ∷ real (codes "max_drawdown") nought
      ∷ (codes "n_trades", count_cell 0)
      ∷ real (codes "final_equity") settings.initial_cash
      ∷ []
  batch_row settings name fee (done result) =
      let m = result.metrics in
      (codes "strategy", text_cell name)
      ∷ (codes "fee_model", text_cell fee)
      ∷ real (codes "total_return") m.total_return
      ∷ real (codes "annual_return") m.annual_return
      ∷ real (codes "sharpe") m.sharpe
      ∷ real (codes "sortino") m.sortino
      ∷ real (codes "max_drawdown") m.max_drawdown
      ∷ real (codes "calmar") m.calmar
      ∷ real (codes "volatility") m.volatility
      ∷ real (codes "win_rate") m.win_rate
      ∷ real (codes "profit_factor") m.profit_factor
      ∷ (codes "n_trades", count_cell m.n_trades)
      ∷ real (codes "initial_cash") m.initial_cash
      ∷ real (codes "final_equity") m.final_equity
      ∷ (codes "error", error_cell result.error)
      ∷ []

  module _ {S : Type 0} where
    -- The inner loop, over the fee models, from progress `i` on: the rows, the calls of `on_progress`
    -- and the progress at its end.
    abbrev pub fees_loop :
        Settings N
        → List (Bar N)
        → (total : ℕ) → (name : Text) → Strategy N S
        → (i : ℕ) → (fees : List Text) → S
        → List (Dict (Cell N)) × (List (ℕ × ℕ) × ℕ)
    fees_loop settings bars total name strategy i [] memory = ([], ([], i))
    fees_loop settings bars total name strategy i (fee ∷ fees) memory =
        let (tried, memory') = engine_run settings name (some fee) bars strategy memory in
        let (rows, (calls, last)) =
          fees_loop settings bars total name strategy (i + 1) fees memory' in
        (batch_row settings name fee tried ∷ rows, ((i + 1, total) ∷ calls, last))

    abbrev pub strategies_loop :
        Settings N
        → List (Bar N)
        → (total : ℕ) → (fees : List Text) → (i : ℕ) → Dict (Strategy N S × S)
        → List (Dict (Cell N)) × List (ℕ × ℕ)
    strategies_loop settings bars total fees i [] = ([], [])
    strategies_loop settings bars total fees i ((name, (strategy, memory)) ∷ strategies) =
        let (rows, (calls, i')) = fees_loop settings bars total name strategy i fees memory in
        let (rows', calls') = strategies_loop settings bars total fees i' strategies in
        (rows ++ rows', calls ++ calls')

    unfoldable pub batch_backtest :
        Settings N
        → List (Bar N)
        → Dict (Strategy N S × S)
        → FeeModels
        → List (Dict (Cell N)) × List (ℕ × ℕ)
    unfolding engine_run
    batch_backtest settings bars strategies fee_models =
        let fees = fees_of fee_models in
        strategies_loop settings bars (length strategies * length fees) fees 0 strategies
