-- ===== src/Backtest/Searches/Grid.antt =====
-- The rows of a grid search (packages/compute/stockstat_compute/backtest/grid_search.py).
use mathlib.Core.List.{Permᴰ}
use mathlib.Core.List.Permᴰ
use stock_statistic.Common.{Option, List}
use stock_statistic.Common.Text.{Text}
use stock_statistic.Common.Dict
use stock_statistic.Common.Dict.{Dict}
use stock_statistic.Protocol.Value.{Value}
use stock_statistic.Backtest.Arith.{Arith}
use stock_statistic.Backtest.Models.{Bar}
use stock_statistic.Backtest.Searches.{Cell, Settings, Attempt}
use stock_statistic.Backtest.Searches.GridSearch.{Made, grid_row, params_of, tried_params}

module _ {N S : Type 0} ⦃a : Arith N⦄ (settings : Settings N) (cost : Option Text)
    (bars : List (Bar N)) (make : Dict (Cell N) → Attempt (Made N S)) where
  -- The row of a combination by itself.
  abbrev pub row_alone : List Text → List Value → Dict (Cell N)
  row_alone keys combo =
      grid_row (params_of keys combo)
        (tried_params settings cost bars (make (params_of keys combo)))
