-- ===== src/Tests/Calling.antt =====
-- A grid search that a client sends.
use stock_statistic.Common.{refl, true, none, some, [], ◌∷◌}
use stock_statistic.Common.Text.{codes}
use stock_statistic.Protocol.Value.{object, int, of_grid, of_items}
use stock_statistic.Common.Integer.{pos}
use stock_statistic.Dispatch.State.{Outside}
use stock_statistic.Compute.Remote.{is_json, fields_json}
use stock_statistic.Invocation.Client.{Fresh, Options}
use stock_statistic.Invocation.Client.Arrives.{
  FrameCall, grid_search, is_json_call, spec_of_call, Arrived, sent_spec-Arrived,
}
use stock_statistic.Tests.Samples.{sample_outside}

-- It reads every pickle as the one frame there is.
abbrev one_frame : Outside
one_frame = record sample_outside { unpickle = λ _. object 7 }

abbrev no_options : Options
no_options = record {
  symbols = none;
  strategy_name = none;
  initial_cash = none;
  cost_model = none;
  fill_model = none;
  execution_model = none;
  benchmark = none;
  trade_on = none;
  allow_short = none;
  periods_per_year = none;
  timeout = none;
}

abbrev drawn : Fresh
drawn = record { task_id = codes "t1"; trace_id = codes "trace"; now = 5 }

abbrev four_windows : FrameCall
four_windows =
    grid_search (some (codes "MaCross")) (codes "pickle")
      ((codes "window", int (pos 5) ∷ int (pos 10) ∷ int (pos 20) ∷ int (pos 40) ∷ []) ∷ [])
      (codes "sharpe") true no_options

sent_spec-Arrived_example : Arrived one_frame 7 (spec_of_call drawn 7 four_windows)
sent_spec-Arrived_example =
    sent_spec-Arrived one_frame drawn 7 four_windows refl (λ b. refl) refl refl
      (unfold is_json_call fields_json of_grid is_json of_items in refl)
