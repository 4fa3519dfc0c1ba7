-- ===== src/Backtest/Searches.antt =====
-- The searches over backtests
-- (packages/compute/stockstat_compute/backtest/grid_search.py, batch_runner.py and walkforward.py).
-- A row of the resulting frame is a dictionary of cells. A strategy object is used again for each
-- of its runs, and remembers what it did; two names for one object are not followed.
pub mod GridSearch
pub mod BatchRunner
pub mod WalkForward
pub mod Windows
pub mod Fresh
pub mod Grid
use stock_statistic.Common.{
  ℕ, zero, suc, ◌+◌, ◌-◌, ◌*◌, Bool, true, false, not, ◌&&◌, ◌||◌, Option, none, some, List, [],
  ◌∷◌, ◌++◌, map, leb, ltb, if◌then◌else◌, is_some,
}
use stock_statistic.Common.Text.{Text, codes}
use stock_statistic.Common.Lists.{length, take, drop}
use stock_statistic.Common.Dict
use stock_statistic.Common.Dict.{Dict, get, put}
use stock_statistic.Protocol.Value.{Value}
use stock_statistic.Dispatch.Shard.{product}
use stock_statistic.Backtest.Arith.{Arith, nought}
use stock_statistic.Backtest.Models.{Bar}
use stock_statistic.Backtest.Engine.{Strategy, Engine, new_engine, infer_periods_per_year}
use stock_statistic.Backtest.Results.{
  Series, BacktestMetrics, BacktestResult, Labels, run_backtest, last_or,
}

pub data Cell (N : Type 0) : Type 0 where
  param_cell : Value → Cell N
  text_cell : Text → Cell N
  real_cell : N → Cell N
  count_cell : ℕ → Cell N
  error_cell : Option (Option Text) → Cell N

-- `{**d, **e}`, and `d.update(e)`
abbrev pub update {ℓ} : {V : Type ℓ} → Dict V → Dict V → Dict V
update d [] = d
update d ((k, v) ∷ e) = update (put k v d) e

-- What a constructor or a call gives, or the message of what it raises.
pub data Attempt {ℓ} (A : Type ℓ) : Type ℓ where
  done : A → Attempt A
  raised : (message : Text) → Attempt A

-- The keywords of a search that every engine of it gets.
pub record Settings (N : Type 0) : Type 0 where
  pub series : Series N
  pub lower : Text → Text
  pub initial_cash : N
  pub fill_model : Option Text
  pub allow_short : Bool
  pub periods_per_year : Option ℕ
  pub symbol : Text
  pub timeframe : Text

abbrev pub non_empty_message : Text
non_empty_message = codes "BacktestEngine requires non-empty data"

abbrev pub name_or : Text → Option Text → Text
name_or default none = default
name_or default (some t) = t

-- The calls `on_progress(i, total)`.
abbrev pub progress_calls : (i total rows : ℕ) → List (ℕ × ℕ)
progress_calls i total zero = []
progress_calls i total (suc rows) = (i + 1, total) ∷ progress_calls (i + 1) total rows

module _ {N : Type 0} ⦃a : Arith N⦄ where
  -- `periods_per_year or self._infer_periods_per_year()`
  abbrev pub periods_for : Settings N → ℕ
  periods_for settings = elim settings.periods_per_year [
    | none ↦ infer_periods_per_year settings.lower settings.timeframe
    | some n ↦ if ltb 0 n then n else infer_periods_per_year settings.lower settings.timeframe
  ]

  -- An engine is made and run; without data making it raises.
  unfoldable pub engine_run :
      {S : Type 0}
      → Settings N
      → (name : Text) (cost : Option Text) → List (Bar N)
      → Strategy N S
      → S
      → Attempt (BacktestResult N) × S
  unfolding run_backtest
  engine_run settings name cost [] strategy memory = (raised non_empty_message, memory)
  engine_run settings name cost (bar ∷ bars) strategy memory =
      let engine =
        new_engine (bar ∷ bars) settings.initial_cash settings.allow_short cost settings.fill_model
          settings.symbol in
      let labels : Labels = record {
        strategy_name = name;
        timeframe = settings.timeframe;
        periods_per_year = periods_for settings;
      } in
      let (result, memory') = run_backtest settings.series labels engine strategy memory in
      (done result, memory')

  abbrev pub real : Text → N → Text × Cell N
  real key x = (key, real_cell x)
