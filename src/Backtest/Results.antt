-- ===== src/Backtest/Results.antt =====
-- The metrics of a finished backtest and its result
-- (packages/compute/stockstat_compute/backtest/metrics.py and result.py, with the end of `run` in
-- engine.py). The operations of pandas and numpy on a series are parameters.
use stock_statistic.Common.{ℕ, ◌&&◌, Option, none, some, List, [], ◌∷◌, map, ltb, if◌then◌else◌}
use stock_statistic.Common.Text.{Text}
use stock_statistic.Common.Lists.{length, filter}
use stock_statistic.Backtest.Arith.{Arith, ◌⊖◌, ◌⊗◌, ◌⊘◌, nought}
use stock_statistic.Backtest.Broker.{Trade}
use stock_statistic.Backtest.Metrics.{trade_stats}
use stock_statistic.Backtest.Engine.{EquityPoint, Strategy, Engine, Outcome, finished, failed, run}

-- What the metrics use of pandas and numpy: `pct_change` with its first value dropped, `std`,
-- `mean`, `cummax` and `min` of a series, numpy's mean of a list, the square root, and `**`, which may raise.
pub record Series (N : Type 0) : Type 0 where
  pub pct_change : List N → List N
  pub std : List N → N
  pub mean : List N → N
  pub np_mean : List N → N
  pub cummax : List N → List N
  pub least : List N → N
  pub root : N → N
  pub power : N → N → Option N

pub record BacktestMetrics (N : Type 0) : Type 0 where
  pub total_return : N
  pub annual_return : N
  pub sharpe : N
  pub sortino : N
  pub max_drawdown : N
  pub calmar : N
  pub volatility : N
  pub win_rate : N
  pub profit_factor : N
  pub n_trades : ℕ
  pub n_winning : ℕ
  pub n_losing : ℕ
  pub avg_win : N
  pub avg_loss : N
  pub avg_trade : N
  pub initial_cash : N
  pub final_equity : N
  pub periods_per_year : ℕ

-- The error of a result has the message of what the strategy raised; `some none` is an error of
-- the arithmetic or of an index. The times of a result and its frame are left out.
pub record BacktestResult (N : Type 0) : Type 0 where
  pub metrics : BacktestMetrics N
  pub trades : List (Trade N)
  pub strategy_name : Text
  pub symbol : Text
  pub timeframe : Text
  pub initial_cash : N
  pub final_equity : N
  pub error : Option (Option Text)
  pub n_bars : Option ℕ

-- The keywords of an engine that a result repeats.
pub record Labels : Type 0 where
  pub strategy_name : Text
  pub timeframe : Text
  pub periods_per_year : ℕ

abbrev pub zip_with {ℓ} : {A : Type ℓ} → (A → A → A) → List A → List A → List A
zip_with f [] ys = []
zip_with f (x ∷ xs) [] = []
zip_with f (x ∷ xs) (y ∷ ys) = f x y ∷ zip_with f xs ys

abbrev pub last_or {ℓ} : {A : Type ℓ} → A → List A → A
last_or x [] = x
last_or x (y ∷ ys) = last_or y ys

module _ {N : Type 0} ⦃a : Arith N⦄ where
  abbrev pub no_metrics : (initial_cash : N) → BacktestMetrics N
  no_metrics initial_cash = record {
    total_return = nought;
    annual_return = nought;
    sharpe = nought;
    sortino = nought;
    max_drawdown = nought;
    calmar = nought;
    volatility = nought;
    win_rate = nought;
    profit_factor = nought;
    n_trades = 0;
    n_winning = 0;
    n_losing = 0;
    avg_win = nought;
    avg_loss = nought;
    avg_trade = nought;
    initial_cash = initial_cash;
    final_equity = nought;
    periods_per_year = 252;
  }

  -- `total / initial - 1` where there is a cash to compare with.
  abbrev pub total_return_of : (final_equity initial_cash : N) → N
  total_return_of final_equity initial_cash =
      if a.lt nought initial_cash then (final_equity ⊘ initial_cash) ⊖ a.literal 1 0 else nought

  -- `none` is a ZeroDivisionError, or what `**` raises.
  abbrev pub annualised : Series N → (n periods : ℕ) (final_equity initial_cash : N) → Option N
  annualised series n periods final_equity initial_cash =
      let years = a.literal n 0 ⊘ a.literal periods 0 in
      if a.lt nought years && a.lt nought final_equity
      then (if a.eq initial_cash nought
          then none
          else elim (series.power (final_equity ⊘ initial_cash) (a.literal 1 0 ⊘ years)) [
            | none ↦ none
            | some x ↦ some (x ⊖ a.literal 1 0)
          ])
      else some nought

  abbrev pub annual_return_of :
      Series N → (n periods : ℕ) (final_equity initial_cash : N) → Option N
  annual_return_of series n periods final_equity initial_cash =
      if ltb 1 n && ltb 0 periods
      then annualised series n periods final_equity initial_cash
      else some nought

  -- `mean / deviation * sqrt(periods)` where the deviation is above zero.
  abbrev pub ratio_of : Series N → (periods : ℕ) (returns downside : List N) → N
  ratio_of series periods returns spread =
      if a.lt nought (series.std spread)
      then (series.mean returns ⊘ series.std spread) ⊗ series.root (a.literal periods 0)
      else nought

  abbrev pub sortino_of : Series N → (periods : ℕ) (returns : List N) → N
  sortino_of series periods returns = elim (filter (λ r. a.lt r nought) returns) [
    | [] ↦ nought
    | r ∷ rs ↦ ratio_of series periods returns (r ∷ rs)
  ]

  abbrev pub max_drawdown_of : Series N → List N → N
  max_drawdown_of series equity =
      series.least (zip_with (λ e high. (e ⊖ high) ⊘ high) equity (series.cummax equity))

  abbrev pub metrics_with :
      Series N
      → List (Trade N)
      → (initial_cash : N) (periods : ℕ) (equity returns : List N) (final_equity annual_return : N)
      → BacktestMetrics N
  metrics_with series trades initial_cash periods equity [] final_equity annual_return =
      record (no_metrics initial_cash) {
        total_return = total_return_of final_equity initial_cash;
        annual_return = annual_return;
        final_equity = final_equity;
        periods_per_year = periods;
      }
  metrics_with series trades initial_cash periods equity (r ∷ rs) final_equity annual_return =
      let max_dd = max_drawdown_of series equity in
      let t = trade_stats series.np_mean trades in
      record {
        total_return = total_return_of final_equity initial_cash;
        annual_return = annual_return;
        sharpe = ratio_of series periods (r ∷ rs) (r ∷ rs);
        sortino = sortino_of series periods (r ∷ rs);
        max_drawdown = max_dd;
        calmar = if a.lt max_dd nought then annual_return ⊘ a.magnitude max_dd else nought;
        volatility = series.std (r ∷ rs) ⊗ series.root (a.literal periods 0);
        win_rate = t.win_rate;
        profit_factor = t.profit_factor;
        n_trades = t.n_trades;
        n_winning = t.n_winning;
        n_losing = t.n_losing;
        avg_win = t.avg_win;
        avg_loss = t.avg_loss;
        avg_trade = t.avg_trade;
        initial_cash = initial_cash;
        final_equity = final_equity;
        periods_per_year = periods;
      }

  unfoldable pub calculate_metrics :
      Series N
      → (equity : List N) (trades : List (Trade N)) (initial_cash : N) (periods : ℕ)
      → Option (BacktestMetrics N)
  unfolding trade_stats
  calculate_metrics series [] trades initial_cash periods = some (no_metrics initial_cash)
  calculate_metrics series (e ∷ es) trades initial_cash periods =
      let final_equity = last_or e es in
      elim (annual_return_of series (length (e ∷ es)) periods final_equity initial_cash) [
        | none ↦ none
        | some annual_return ↦ some (
            metrics_with series trades initial_cash periods (e ∷ es) (series.pct_change (e ∷ es))
              final_equity annual_return)
      ]

  abbrev pub failed_result : Labels → Engine N → Option Text → List (Trade N) → BacktestResult N
  failed_result labels e message trades = record {
    metrics = no_metrics e.initial_cash;
    trades = trades;
    strategy_name = labels.strategy_name;
    symbol = e.symbol;
    timeframe = [];
    initial_cash = e.initial_cash;
    final_equity = nought;
    error = some message;
    n_bars = none;
  }

  module _ {S : Type 0} where
    abbrev pub result_from : Series N → Labels → Engine N → Outcome N S → BacktestResult N × S
    result_from series labels e (failed message l) =
        (failed_result labels e message l.broker.trades, l.memory)
    result_from series labels e (finished l) =
        let equity = map (λ (p : EquityPoint N). p.equity) l.points in
        elim (calculate_metrics series equity l.broker.trades e.initial_cash
          labels.periods_per_year) [
            | none ↦ (failed_result labels e none l.broker.trades, l.memory)
            | some m ↦ (
              record {
                metrics = m;
                trades = l.broker.trades;
                strategy_name = labels.strategy_name;
                symbol = e.symbol;
                timeframe = labels.timeframe;
                initial_cash = e.initial_cash;
                final_equity = m.final_equity;
                error = none;
                n_bars = some (length e.bars);
              },
              l.memory,
            )
          ]

    -- `run`, with what the strategy remembers afterwards.
    unfoldable pub run_backtest :
        Series N → Labels → Engine N → Strategy N S → S → BacktestResult N × S
    unfolding calculate_metrics
    run_backtest series labels e strategy memory =
        result_from series labels e (run e strategy memory)
