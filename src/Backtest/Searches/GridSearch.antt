-- ===== src/Backtest/Searches/GridSearch.antt =====
-- Grid search (packages/compute/stockstat_compute/backtest/grid_search.py).
use stock_statistic.Common.{
  ℕ, ◌+◌, Bool, false, not, ◌||◌, Option, some, List, [], ◌∷◌, if◌then◌else◌, is_some,
}
use stock_statistic.Common.Text.{Text, codes}
use stock_statistic.Common.Lists.{length}
use stock_statistic.Common.Dict
use stock_statistic.Common.Dict.{Dict, get, put}
use stock_statistic.Protocol.Value.{Value}
use stock_statistic.Dispatch.Shard.{product}
use stock_statistic.Backtest.Arith.{Arith, nought}
use stock_statistic.Backtest.Models.{Bar}
use stock_statistic.Backtest.Engine.{Strategy}
use stock_statistic.Backtest.Results.{BacktestResult}
use stock_statistic.Backtest.Searches.{
  Attempt, Cell, Settings, count_cell, done, engine_run, error_cell, name_or, param_cell, raised,
  real, update,
}

-- A strategy class makes a strategy of a parameter set, with its name and its first state.
pub record Made (N S : Type 0) : Type 0 where
  pub name : Option Text
  pub strategy : Strategy N S
  pub memory : S

module _ {N : Type 0} ⦃a : Arith N⦄ where
  -- The row of a parameter set.
  abbrev pub grid_row : (params : Dict (Cell N)) → Attempt (BacktestResult N) → Dict (Cell N)
  grid_row params (raised message) = update params (
      (codes "error", error_cell (some (some message)))
      ∷ real (codes "sharpe") nought
      ∷ real (codes "total_return") nought
      ∷ real (codes "max_drawdown") nought
      ∷ (codes "n_trades", count_cell 0)
      ∷ [])
  grid_row params (done result) =
      let m = result.metrics in
      update params (
        real (codes "total_return") m.total_return
        ∷ real (codes "sharpe") m.sharpe
        ∷ real (codes "sortino") m.sortino
        ∷ real (codes "max_drawdown") m.max_drawdown
        ∷ real (codes "calmar") m.calmar
        ∷ real (codes "volatility") m.volatility
        ∷ (codes "n_trades", count_cell m.n_trades)
        ∷ real (codes "final_equity") m.final_equity
        ∷ (codes "error", error_cell result.error)
        ∷ [])

  -- `dict(zip(keys, combo))`
  abbrev pub params_of : List Text → List Value → Dict (Cell N)
  params_of [] combo = []
  params_of (k ∷ ks) [] = []
  params_of (k ∷ ks) (v ∷ vs) = (k, param_cell v) ∷ params_of ks vs

  -- A backtest of a strategy that `make` made, or what it raised.
  abbrev pub tried_params :
      {S : Type 0}
      → Settings N
      → (cost : Option Text) → List (Bar N)
      → Attempt (Made N S)
      → Attempt (BacktestResult N)
  tried_params settings cost bars (raised message) = raised message
  tried_params settings cost bars (done s) =
      (engine_run settings (name_or (codes "grid") s.name) cost bars s.strategy s.memory).0

  -- The loop of `grid_search`: its rows, and the calls of `on_progress`.
  abbrev pub grid_loop :
      {S : Type 0}
      → Settings N
      → (cost : Option Text) → List (Bar N)
      → (Dict (Cell N) → Attempt (Made N S))
      → (keys : List Text) (i total : ℕ) (combos : List (List Value))
      → List (Dict (Cell N)) × List (ℕ × ℕ)
  grid_loop settings cost bars make keys i total [] = ([], [])
  grid_loop settings cost bars make keys i total (combo ∷ combos) =
      let params = params_of keys combo in
      let (rows, calls) = grid_loop settings cost bars make keys (i + 1) total combos in
      (
        grid_row params (tried_params settings cost bars (make params)) ∷ rows,
        (i + 1, total) ∷ calls,
      )

  -- `metric in df.columns`
  abbrev pub has_column : Text → List (Dict (Cell N)) → Bool
  has_column metric [] = false
  has_column metric (row ∷ rows) = is_some (get metric row) || has_column metric rows

  -- `sort_values` is pandas', with the column and whether it ascends.
  unfoldable pub grid_search :
      {S : Type 0}
      → (sort_values : Text → Bool → List (Dict (Cell N)) → List (Dict (Cell N))) → Settings N
      → (cost : Option Text) → List (Bar N)
      → (Dict (Cell N) → Attempt (Made N S))
      → (grid : Dict (List Value)) (metric : Text) (maximize : Bool)
      → List (Dict (Cell N)) × List (ℕ × ℕ)
  unfolding product engine_run
  grid_search sort_values settings cost bars make grid metric maximize =
      let combos = product (Dict.values grid) in
      let (rows, calls) =
        grid_loop settings cost bars make (Dict.keys grid) 0 (length combos) combos in
      (if has_column metric rows then sort_values metric (not maximize) rows else rows, calls)
