-- ===== src/Invocation/Client.antt =====
-- The specifications that the client's methods build
-- (packages/invocation/stockstat/client.py and compute_api.py). A new UUID, the clock and the text
-- of cloudpickle are arguments.
pub mod Arrives
use stock_statistic.Common.{
  ℕ, suc, ◌+◌, Bool, true, false, Option, none, some, List, [], ◌∷◌, ◌++◌, map,
}
use stock_statistic.Common.Text.{Text, codes}
use stock_statistic.Common.Dict.{Dict, put}
use stock_statistic.Protocol.Value.{Float, Value, null, text}
use stock_statistic.Protocol.Task.{
  DataSpec, DispatchSpec, ComputeSpec, TaskSpec, default_data_spec, default_dispatch_spec,
  default_compute_spec, million,
}
use stock_statistic.Dispatch.SliceId.{decimal}
use stock_statistic.Dispatch.Assign.{inline_key}

-- What a call draws: two UUIDs and the time.
pub record Fresh : Type 0 where
  pub task_id : Text
  pub trace_id : Text
  pub now : ℕ

-- The keyword arguments that the methods read, where they are given.
pub record Options : Type 0 where
  pub symbols : Option (List Text)
  pub strategy_name : Option Text
  pub initial_cash : Option Float
  pub cost_model : Option Text
  pub fill_model : Option Text
  pub execution_model : Option Text
  pub benchmark : Option Text
  pub trade_on : Option Text
  pub allow_short : Option Bool
  pub periods_per_year : Option ℕ
  pub timeout : Option ℕ

abbrev option_or {ℓ} : {A : Type ℓ} → A → Option A → A
option_or x none = x
option_or x (some y) = y

-- `f"cloudpickle:{...}"`
abbrev pub pickled_ref : Text → Text
pickled_ref dumped = codes "cloudpickle:" ++ dumped

abbrev data_of_symbols : Options → DataSpec
data_of_symbols o = record default_data_spec { symbols = option_or [] o.symbols }

abbrev dispatch_of : Options → DispatchSpec
dispatch_of o = record default_dispatch_spec { timeout = option_or 3600 o.timeout }

abbrev task_of : Fresh → DataSpec → ComputeSpec → DispatchSpec → TaskSpec
task_of f asked compute dispatch = record {
  task_id = f.task_id;
  data_spec = asked;
  compute_spec = compute;
  dispatch_spec = dispatch;
  trace_id = f.trace_id;
  created_at = f.now;
  created_by = codes "StockStatClient";
}

abbrev inline_params : Option Value → Dict Value
inline_params none = []
inline_params (some v) = (inline_key, v) ∷ []

-- `build_backtest_task_spec`
unfoldable pub build_backtest_task_spec :
    Fresh → (inline : Option Value) → (dumped : Text) → Options → TaskSpec
build_backtest_task_spec f inline dumped o =
    task_of f (data_of_symbols o)
      (record (default_compute_spec (codes "backtest")) {
        strategy_ref = some (pickled_ref dumped);
        initial_cash = option_or million o.initial_cash;
        cost_model = o.cost_model;
        fill_model = o.fill_model;
        execution_model = o.execution_model;
        benchmark = o.benchmark;
        trade_on = option_or (codes "open") o.trade_on;
        allow_short = option_or false o.allow_short;
        periods_per_year = o.periods_per_year;
        params =
            inline_params inline
            ++ (codes "strategy_name", text (option_or (codes "backtest") o.strategy_name)) ∷ [];
      })
      (dispatch_of o)

abbrev named_params : Option Text → Dict Value
named_params none = []
named_params (some name) = (codes "strategy_name", text name) ∷ []

-- The specification of `grid_search`; `class_name` is the `__name__` of the strategy's class.
unfoldable pub grid_search_spec :
    Fresh
    → (inline : Value) → (class_name : Option Text) → (dumped : Text) → Dict (List Value)
    → (metric : Text) → (maximize : Bool) → Options
    → TaskSpec
grid_search_spec f inline class_name dumped grid metric maximize o =
    task_of f (data_of_symbols o)
      (record (default_compute_spec (codes "grid_search")) {
        strategy_ref = some (pickled_ref dumped);
        param_grid = some grid;
        metric = metric;
        maximize = maximize;
        initial_cash = option_or million o.initial_cash;
        cost_model = o.cost_model;
        fill_model = o.fill_model;
        trade_on = option_or (codes "open") o.trade_on;
        allow_short = option_or false o.allow_short;
        periods_per_year = o.periods_per_year;
        params = (inline_key, inline) ∷ named_params class_name;
      })
      (dispatch_of o)

-- `fee_models or ["default"]`
abbrev fees_or_default : Option (List Text) → List Text
fees_or_default (some (f ∷ fs)) = f ∷ fs
fees_or_default _ = codes "default" ∷ []

abbrev pub pickled_item : Text × Text → Text × Value
pickled_item (name, dumped) = (name, text (pickled_ref dumped))

-- The specification of `batch_backtest`, of the strategies' names and their dumps.
unfoldable pub batch_backtest_spec :
    Fresh → (inline : Value) → Dict Text → Option (List Text) → Options → TaskSpec
batch_backtest_spec f inline dumped fee_models o =
    task_of f (data_of_symbols o)
      (record (default_compute_spec (codes "batch_backtest")) {
        strategies = some (map pickled_item dumped);
        fee_models = some (fees_or_default fee_models);
        initial_cash = option_or million o.initial_cash;
        fill_model = o.fill_model;
        trade_on = option_or (codes "open") o.trade_on;
        allow_short = option_or false o.allow_short;
        periods_per_year = o.periods_per_year;
        params = (inline_key, inline) ∷ [];
      })
      (dispatch_of o)

-- A task with a type and parameters only; `trace_id` and `created_by` are the defaults.
abbrev plain_task : Fresh → Text → Dict Value → TaskSpec
plain_task f task_type params = record {
  task_id = f.task_id;
  data_spec = default_data_spec;
  compute_spec = record (default_compute_spec task_type) { params = params };
  dispatch_spec = default_dispatch_spec;
  trace_id = [];
  created_at = f.now;
  created_by = [];
}

-- The specification of `_submit_sync`.
unfoldable pub submit_sync_spec : Fresh → Text → Dict Value → TaskSpec
submit_sync_spec f task_type params = plain_task f task_type params

-- `inline_params[f"_arg_{i}"]` for the arguments from number `i` on.
abbrev pub arg_params : ℕ → List Value → Dict Value
arg_params i [] = []
arg_params i (v ∷ vs) = (codes "_arg_" ++ decimal i, v) ∷ arg_params (i + 1) vs

-- `d.update(e)`
abbrev pub update_all : Dict Value → Dict Value → Dict Value
update_all d [] = d
update_all d ((k, v) ∷ e) = update_all (put k v d) e

abbrev pub first_or_null : List Value → Value
first_or_null [] = null
first_or_null (v ∷ vs) = v

-- The specification of an indicator that is computed remotely, in `_dispatch_indicator`.
unfoldable pub indicator_spec : Fresh → (name : Text) → List Value → Dict Value → TaskSpec
unfolding decimal
indicator_spec f name args params = plain_task f (codes "indicator") (
    update_all ((codes "indicator_name", text name) ∷ [])
      (put inline_key (first_or_null args) (update_all (arg_params 0 args) params)))
