-- ===== src/Tests/Searching.antt =====
-- Searches over backtests of whole numbers.
use mathlib.Core.List.{Permᴰ}
use mathlib.Core.List.Permᴰ
use stock_statistic.Common.{ℕ, suc, ◌*◌, ◌≡◌, refl, false, none, some, List, [], ◌∷◌, map, arith}
use stock_statistic.Common.Integer.{ℤ, pos}
use stock_statistic.Common.Text.{codes}
use stock_statistic.Common.Lists.{length, concat}
use stock_statistic.Common.Dict
use stock_statistic.Common.Dict.{Dict}
use stock_statistic.Protocol.Value.{Value, int}
use stock_statistic.Backtest.Engine.{Strategy, answered}
use stock_statistic.Backtest.Results.{Series}
use stock_statistic.Backtest.Searches.{Cell, Settings, Attempt, done, raised, progress_calls}
use stock_statistic.Backtest.Searches.GridSearch.{Made}
use stock_statistic.Backtest.Searches.BatchRunner.{default_fees, fees_of, batch_backtest}
use stock_statistic.Backtest.Searches.WalkForward.{windows_from}
use stock_statistic.Backtest.Searches.Windows.{WindowsFound, windows_from-WindowsFound}
use stock_statistic.Backtest.Searches.Fresh.{rows_alone, batch_backtest-BeginsAnew}
use stock_statistic.Tests.Trading.{whole, three_bars}

windows_from-WindowsFound_example : WindowsFound 10 2 3 4 (windows_from 11 10 2 3 4)
windows_from-WindowsFound_example =
    windows_from-WindowsFound 10 10 2 3 4 (omega arith) (omega arith)

-- Ten bars, of which the first four are for training, and a step of three.
two_windows : windows_from 11 10 2 3 4 ≡ some ((4, 6) ∷ (7, 9) ∷ [])
unfolding windows_from
two_windows = refl

abbrev still_series : Series ℤ
still_series = record {
  pct_change = λ xs. [];
  std = λ xs. pos 0;
  mean = λ xs. pos 0;
  np_mean = λ xs. pos 0;
  cummax = λ xs. xs;
  least = λ xs. pos 0;
  root = λ x. x;
  power = λ x y. some x;
}

abbrev whole_settings : Settings ℤ
whole_settings = record {
  series = still_series;
  lower = λ t. t;
  initial_cash = pos 100;
  fill_model = none;
  allow_short = false;
  periods_per_year = none;
  symbol = codes "A";
  timeframe = codes "1d";
}

-- Counts its bars, and begins at zero.
abbrev bar_counting : Strategy ℤ ℕ
bar_counting = record {
  on_init = λ s. (none, 0);
  on_bar = λ i s. (answered none, suc s);
  on_finish = λ s. (none, s);
}

abbrev two_strategies : Dict (Strategy ℤ ℕ × ℕ)
two_strategies = (codes "a", (bar_counting, 5)) ∷ (codes "b", (bar_counting, 7)) ∷ []

batch_backtest-BeginsAnew_example :
    ((batch_backtest whole_settings three_bars two_strategies default_fees).0
      ≡ concat (map (rows_alone whole_settings three_bars (fees_of default_fees)) two_strategies))
    × ((batch_backtest whole_settings three_bars two_strategies default_fees).1
        ≡ progress_calls 0
            (length two_strategies * length (fees_of default_fees))
            (length two_strategies * length (fees_of default_fees)))
    × (length (batch_backtest whole_settings three_bars two_strategies default_fees).0
        ≡ length (batch_backtest whole_settings three_bars two_strategies default_fees).1)
batch_backtest-BeginsAnew_example =
    batch_backtest-BeginsAnew whole_settings three_bars two_strategies default_fees
      ((λ m m'. refl), ((λ m m'. refl), tt))

abbrev make_some : Dict (Cell ℤ) → Attempt (Made ℤ ℕ)
make_some [] = raised (codes "no parameters")
make_some (p ∷ params) = done (record { name = none; strategy = bar_counting; memory = 0 })

abbrev small_grid : Dict (List Value)
small_grid =
    (codes "n", int (pos 1) ∷ int (pos 2) ∷ []) ∷ (codes "m", int (pos 3) ∷ int (pos 4) ∷ []) ∷ []
