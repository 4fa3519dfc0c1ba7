-- ===== src/Protocol/Decode.antt =====
-- `from_dict` of TaskSpec and its parts
-- (packages/foundation/stockstat_foundation/protocol/task.py). `none` is a dictionary without the
-- task id, or one with a value that the dataclass's annotations do not allow.
use stock_statistic.Common.{ℕ, true, false, Option, none, some, List, []}
use stock_statistic.Common.Integer.{pos}
use stock_statistic.Common.Text.{Text, codes}
use stock_statistic.Common.Dict.{Dict}
use stock_statistic.Protocol.Value.{
  Float, Value, null, bool, int, float, text, list, dict, nil, cons, Fields, empty, field_or,
  as_text, as_opt_text, as_nat, as_opt_nat, as_int, as_bool, texts_of, grid_of, to_fields,
}
use stock_statistic.Protocol.Task.{Runtime, DataSpec, DispatchSpec, ComputeSpec, TaskSpec, million}

infixl 5 ◌>>=◌
abbrev pub ◌>>=◌ {ℓ κ} : {A : Type ℓ} {B : Type κ} → Option A → (A → Option B) → Option B
none >>= f = none
some a >>= f = f a

-- `list(v)` of a list of texts
abbrev pub as_texts : Value → Option (List Text)
as_texts (list vs) = texts_of vs
as_texts _ = none

-- `list(v) if v else None`
abbrev pub as_fee_models : Value → Option (Option (List Text))
as_fee_models null = some none
as_fee_models (list nil) = some none
as_fee_models (list (cons v vs)) = texts_of (cons v vs) >>= λ ts. some (some ts)
as_fee_models _ = none

-- `dict(v or {})`
abbrev pub as_params : Value → Option (Dict Value)
as_params null = some []
as_params (dict d) = some (to_fields d)
as_params _ = none

abbrev pub as_opt_dict : Value → Option (Option (Dict Value))
as_opt_dict null = some none
as_opt_dict (dict d) = some (some (to_fields d))
as_opt_dict _ = none

abbrev pub as_opt_grid : Value → Option (Option (Dict (List Value)))
as_opt_grid null = some none
as_opt_grid (dict d) = grid_of d >>= λ g. some (some g)
as_opt_grid _ = none

-- `float(v)`
abbrev pub to_float : Runtime → Value → Option Float
to_float rt (float f) = some f
to_float rt (int z) = some (rt.float_of_int z)
to_float rt _ = none

-- The dictionary of a nested specification.
abbrev pub as_dict : Value → Option Fields
as_dict (dict d) = some d
as_dict _ = none

unfoldable pub data_from_dict : Fields → Option DataSpec
unfolding field_or texts_of
data_from_dict d = do
  symbols ← as_texts (field_or (codes "symbols") (list nil) d)
  timeframe ← as_text (field_or (codes "timeframe") (text (codes "1d")) d)
  start ← as_opt_text (field_or (codes "start") null d)
  stop ← as_opt_text (field_or (codes "end") null d)
  source ← as_opt_text (field_or (codes "source") null d)
  some (record {
    symbols = symbols;
    timeframe = timeframe;
    start = start;
    end = stop;
    source = source;
  })

unfoldable pub dispatch_from_dict : Fields → Option DispatchSpec
unfolding field_or
dispatch_from_dict d = do
  split_strategy ← as_text (field_or (codes "split_strategy") (text (codes "auto")) d)
  max_workers ← as_opt_nat (field_or (codes "max_workers") null d)
  data_dispatch ← as_text (field_or (codes "data_dispatch") (text (codes "auto")) d)
  priority ← as_int (field_or (codes "priority") (int (pos 0)) d)
  timeout ← as_nat (field_or (codes "timeout") (int (pos 3600)) d)
  retry_count ← as_nat (field_or (codes "retry_count") (int (pos 0)) d)
  preemptable ← as_bool (field_or (codes "preemptable") (bool false) d)
  some (record {
    split_strategy = split_strategy;
    max_workers = max_workers;
    data_dispatch = data_dispatch;
    priority = priority;
    timeout = timeout;
    retry_count = retry_count;
    preemptable = preemptable;
  })

unfoldable pub compute_from_dict : Runtime → Fields → Option ComputeSpec
unfolding field_or texts_of grid_of to_fields
compute_from_dict rt d = do
  task_type ← as_text (field_or (codes "task_type") (text (codes "custom")) d)
  strategy_ref ← as_opt_text (field_or (codes "strategy_ref") null d)
  strategy_codec ← as_text (field_or (codes "strategy_codec") (text (codes "cloudpickle")) d)
  params ← as_params (field_or (codes "params") (dict empty) d)
  initial_cash ← to_float rt (field_or (codes "initial_cash") (float million) d)
  cost_model ← as_opt_text (field_or (codes "cost_model") null d)
  fill_model ← as_opt_text (field_or (codes "fill_model") null d)
  execution_model ← as_opt_text (field_or (codes "execution_model") null d)
  benchmark ← as_opt_text (field_or (codes "benchmark") null d)
  trade_on ← as_text (field_or (codes "trade_on") (text (codes "open")) d)
  allow_short ← as_bool (field_or (codes "allow_short") (bool false) d)
  periods_per_year ← as_opt_nat (field_or (codes "periods_per_year") null d)
  param_grid ← as_opt_grid (field_or (codes "param_grid") null d)
  metric ← as_text (field_or (codes "metric") (text (codes "sharpe")) d)
  maximize ← as_bool (field_or (codes "maximize") (bool true) d)
  strategies ← as_opt_dict (field_or (codes "strategies") null d)
  fee_models ← as_fee_models (field_or (codes "fee_models") null d)
  n_simulations ← as_nat (field_or (codes "n_simulations") (int (pos 1000)) d)
  seed ← as_nat (field_or (codes "seed") (int (pos 0)) d)
  some (record {
    task_type = task_type;
    strategy_ref = strategy_ref;
    strategy_codec = strategy_codec;
    params = params;
    initial_cash = initial_cash;
    cost_model = cost_model;
    fill_model = fill_model;
    execution_model = execution_model;
    benchmark = benchmark;
    trade_on = trade_on;
    allow_short = allow_short;
    periods_per_year = periods_per_year;
    param_grid = param_grid;
    metric = metric;
    maximize = maximize;
    strategies = strategies;
    fee_models = fee_models;
    n_simulations = n_simulations;
    seed = seed;
  })

-- A text that is no date, and a missing one, become the present time.
abbrev pub created : Runtime → Value → Option ℕ
created rt (text t) = elim (rt.fromisoformat t) [ none ↦ some rt.utcnow | some n ↦ some n ]
created rt null = some rt.utcnow
created rt _ = none

unfoldable pub from_dict : Runtime → Fields → Option TaskSpec
unfolding field_or
from_dict rt d = do
  task_id ← as_text (field_or (codes "task_id") null d)
  data_fields ← as_dict (field_or (codes "data_spec") (dict empty) d)
  data_spec ← data_from_dict data_fields
  compute_fields ← as_dict (field_or (codes "compute_spec") (dict empty) d)
  compute_spec ← compute_from_dict rt compute_fields
  dispatch_fields ← as_dict (field_or (codes "dispatch_spec") (dict empty) d)
  dispatch_spec ← dispatch_from_dict dispatch_fields
  trace_id ← as_text (field_or (codes "trace_id") (text []) d)
  created_at ← created rt (field_or (codes "created_at") null d)
  created_by ← as_text (field_or (codes "created_by") (text []) d)
  some (record {
    task_id = task_id;
    data_spec = data_spec;
    compute_spec = compute_spec;
    dispatch_spec = dispatch_spec;
    trace_id = trace_id;
    created_at = created_at;
    created_by = created_by;
  })
