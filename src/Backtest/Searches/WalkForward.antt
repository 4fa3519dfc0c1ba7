-- ===== src/Backtest/Searches/WalkForward.antt =====
-- Walk forward (packages/compute/stockstat_compute/backtest/walkforward.py).
use stock_statistic.Common.{
  ℕ, zero, suc, ◌+◌, ◌-◌, Option, none, some, List, [], ◌∷◌, leb, if◌then◌else◌,
}
use stock_statistic.Common.Text.{Text, codes}
use stock_statistic.Common.Lists.{length, take, drop}
use stock_statistic.Common.Dict.{Dict}
use stock_statistic.Backtest.Arith.{Arith, nought}
use stock_statistic.Backtest.Models.{Bar}
use stock_statistic.Backtest.Engine.{Strategy}
use stock_statistic.Backtest.Results.{BacktestResult, last_or}
use stock_statistic.Backtest.Searches.{
  Attempt, Cell, Settings, count_cell, done, engine_run, error_cell, progress_calls, raised, real,
  text_cell,
}

-- `int(step) if step else int(test_window)`
abbrev pub step_of : (step : Option ℕ) (test_window : ℕ) → ℕ
step_of none test_window = test_window
step_of (some zero) test_window = test_window
step_of (some (suc n)) test_window = suc n

-- The windows from `start` on of `n` bars; `none` where the fuel has ended.
unfoldable pub windows_from : (fuel n test_window step start : ℕ) → Option (List (ℕ × ℕ))
windows_from zero n test_window step start = none
windows_from (suc fuel) n test_window step start =
    let rest = windows_from fuel n test_window step (start + step) in
    if leb (start + test_window) n
    then (elim rest [ none ↦ none | some ws ↦ some ((start, start + test_window) ∷ ws) ])
    else some []

-- `xs[a:b]`
abbrev pub slice {ℓ} : {A : Type ℓ} → (a b : ℕ) → List A → List A
slice a b xs = take (b - a) (drop a xs)

-- `str(data.iloc[0]["timestamp"]) if len(data) > 0 else ""`
abbrev pub first_time : {N : Type 0} → (ℕ → Text) → List (Bar N) → Text
first_time show_time [] = []
first_time show_time (bar ∷ bars) = show_time bar.timestamp

abbrev pub last_time : {N : Type 0} → (ℕ → Text) → List (Bar N) → Text
last_time show_time [] = []
last_time show_time (bar ∷ bars) = elim bars [
  | [] ↦ show_time bar.timestamp
  | b ∷ bs ↦ show_time (last_or b bs).timestamp
]

module _ {N : Type 0} ⦃a : Arith N⦄ where
  -- The row of a window.
  abbrev pub window_row :
      (show_time : ℕ → Text) (i : ℕ) (train test : List (Bar N))
      → Attempt (BacktestResult N)
      → Dict (Cell N)
  window_row show_time i train test (raised message) =
      (codes "window", count_cell i)
      ∷ (codes "error", error_cell (some (some message)))
      ∷ real (codes "total_return") nought
      ∷ real (codes "sharpe") nought
      ∷ real (codes "max_drawdown") nought
      ∷ (codes "n_trades", count_cell 0)
      ∷ []
  window_row show_time i train test (done result) =
      let m = result.metrics in
      (codes "window", count_cell i)
      ∷ (codes "train_start", text_cell (first_time show_time train))
      ∷ (codes "train_end", text_cell (last_time show_time train))
      ∷ (codes "test_start", text_cell (first_time show_time test))
      ∷ (codes "test_end", text_cell (last_time show_time test))
      ∷ real (codes "total_return") m.total_return
      ∷ real (codes "sharpe") m.sharpe
      ∷ real (codes "max_drawdown") m.max_drawdown
      ∷ (codes "n_trades", count_cell m.n_trades)
      ∷ real (codes "final_equity") m.final_equity
      ∷ (codes "error", error_cell result.error)
      ∷ []

  module _ {S : Type 0} where
    -- The loop of `WalkForward.run` over its windows.
    abbrev pub windows_loop :
        Settings N
        → (cost : Option Text) (show_time : ℕ → Text) → List (Bar N)
        → (train_window : ℕ) → Strategy N S
        → (i : ℕ) → List (ℕ × ℕ)
        → S
        → List (Dict (Cell N))
    windows_loop settings cost show_time bars train_window strategy i [] memory = []
    windows_loop settings cost show_time bars train_window strategy i ((start, end) ∷ windows)
          memory =
        let train = slice (start - train_window) start bars in
        let test = slice start end bars in
        let (tried, memory') = engine_run settings [] cost test strategy memory in
        window_row show_time i train test tried
        ∷ windows_loop settings cost show_time bars train_window strategy (i + 1) windows memory'

    -- `none` where the fuel has ended.
    unfoldable pub walk_forward :
        (fuel : ℕ)
        → Settings N
        → (cost : Option Text) (show_time : ℕ → Text) → List (Bar N)
        → (train_window test_window : ℕ) (step : Option ℕ) → Strategy N S
        → S
        → Option (List (Dict (Cell N)) × List (ℕ × ℕ))
    unfolding engine_run windows_from
    walk_forward fuel settings cost show_time bars train_window test_window step strategy memory =
        elim (windows_from fuel (length bars) test_window (step_of step test_window) train_window) [
          | none ↦ none
          | some windows ↦ some (
            windows_loop settings cost show_time bars train_window strategy 0 windows memory,
            progress_calls 0 (length windows) (length windows),
          )
        ]
