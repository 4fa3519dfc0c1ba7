-- ===== src/Tests/Slices.antt =====
-- Slice ids and the division of tasks, on concrete tasks.
use stock_statistic.Common.{◌+◌, ◌%◌, ◌≡◌, refl, some, List, [], ◌∷◌, map, arith}
use stock_statistic.Common.Lists.{length, concat}
use stock_statistic.Common.Integer.{pos}
use stock_statistic.Common.Sum.{sum_by}
use stock_statistic.Common.Dict.{Dict}
use stock_statistic.Common.Text.{codes, starts_with}
use stock_statistic.Protocol.Value.{Value, int}
use stock_statistic.Protocol.Task.{TaskSpec}
use stock_statistic.Dispatch.SliceId.{parent_id}
use stock_statistic.Dispatch.Shard.{shard_monte_carlo, shard_symbol_wise, shard_task}
use stock_statistic.Dispatch.Shard.Chunks.{
  Division, symbols_of, shard_grid-Division, symbols-shard_symbol_wise,
}
use stock_statistic.Dispatch.Shard.MonteCarlo.{simulations, shard_monte_carlo_loses}
use stock_statistic.Dispatch.Shard.Slices.{IsSharded, shard_task-IsSharded}
use stock_statistic.Tests.Samples.{spec_of, marked_id, backtest, sample_outside}

-- A task that is not divided and has the mark in its id is taken for a slice of another.
marked_parent : parent_id marked_id ≡ codes "job"
unfolding parent_id starts_with
marked_parent = refl

shard_task-IsSharded_example : IsSharded backtest (shard_task sample_outside.set_order backtest)
shard_task-IsSharded_example = shard_task-IsSharded sample_outside.set_order backtest

symbols-shard_symbol_wise_example :
    (concat (map symbols_of (shard_symbol_wise backtest)) ≡ backtest.data_spec.symbols)
    × (length (shard_symbol_wise backtest) ≡ length backtest.data_spec.symbols)
symbols-shard_symbol_wise_example = symbols-shard_symbol_wise backtest (omega arith)

abbrev on_workers : TaskSpec → TaskSpec
on_workers s = record s { dispatch_spec = record s.dispatch_spec { max_workers = some 3 } }

abbrev paths : TaskSpec
paths = on_workers (spec_of (codes "paths") (codes "monte_carlo") (pos 0) [])

-- A thousand simulations on three workers: one is lost.
shard_monte_carlo_loses_example : sum_by simulations (shard_monte_carlo paths) + 1000 % 3 ≡ 1000
shard_monte_carlo_loses_example = shard_monte_carlo_loses paths (omega arith)

abbrev numbers : List Value
numbers = int (pos 1) ∷ int (pos 2) ∷ int (pos 3) ∷ []

abbrev grid : Dict (List Value)
grid = (codes "fast", numbers) ∷ (codes "slow", numbers) ∷ []

shard_grid-Division_example : Division paths grid
shard_grid-Division_example = shard_grid-Division paths grid
