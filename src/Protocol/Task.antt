-- ===== src/Protocol/Task.antt =====
-- TaskSpec and its three parts, and `to_dict`
-- (packages/foundation/stockstat_foundation/protocol/task.py).
use stock_statistic.Common.{ℕ, Bool, true, false, Option, none, some, List, [], ◌∷◌}
use stock_statistic.Common.Integer.{ℤ, pos}
use stock_statistic.Common.Text.{Text, codes}
use stock_statistic.Common.Dict.{Dict}
use stock_statistic.Protocol.Value.{
  Float, Value, null, bool, int, float, text, list, dict, Fields, empty, field, of_fields, of_texts,
  of_grid,
}

-- What the Python runtime computes and the repository does not define. A date and time is a
-- count of microseconds.
pub record Runtime : Type 0 where
  pub isoformat : ℕ → Text
  pub fromisoformat : Text → Option ℕ
  pub utcnow : ℕ
  -- `float(n)` of an int
  pub float_of_int : ℤ → Float

pub record DataSpec : Type 0 where
  pub symbols : List Text
  pub timeframe : Text
  pub start : Option Text
  pub end : Option Text
  pub source : Option Text

pub record DispatchSpec : Type 0 where
  pub split_strategy : Text
  pub max_workers : Option ℕ
  pub data_dispatch : Text
  pub priority : ℤ
  pub timeout : ℕ
  pub retry_count : ℕ
  pub preemptable : Bool

pub record ComputeSpec : Type 0 where
  pub task_type : Text
  pub strategy_ref : Option Text
  pub strategy_codec : Text
  pub params : Dict Value
  pub initial_cash : Float
  pub cost_model : Option Text
  pub fill_model : Option Text
  pub execution_model : Option Text
  pub benchmark : Option Text
  pub trade_on : Text
  pub allow_short : Bool
  pub periods_per_year : Option ℕ
  pub param_grid : Option (Dict (List Value))
  pub metric : Text
  pub maximize : Bool
  pub strategies : Option (Dict Value)
  pub fee_models : Option (List Text)
  pub n_simulations : ℕ
  pub seed : ℕ

pub record TaskSpec : Type 0 where
  pub task_id : Text
  pub data_spec : DataSpec
  pub compute_spec : ComputeSpec
  pub dispatch_spec : DispatchSpec
  pub trace_id : Text
  pub created_at : ℕ
  pub created_by : Text

-- The defaults of the dataclass fields.
abbrev pub default_data_spec : DataSpec
default_data_spec = record {
  symbols = [];
  timeframe = codes "1d";
  start = none;
  end = none;
  source = none;
}

abbrev pub default_dispatch_spec : DispatchSpec
default_dispatch_spec = record {
  split_strategy = codes "auto";
  max_workers = none;
  data_dispatch = codes "auto";
  priority = pos 0;
  timeout = 3600;
  retry_count = 0;
  preemptable = false;
}

-- 1_000_000.0
abbrev pub million : Float
million = record { bits = 0x412E848000000000 }

abbrev pub default_compute_spec : Text → ComputeSpec
default_compute_spec task_type = record {
  task_type = task_type;
  strategy_ref = none;
  strategy_codec = codes "cloudpickle";
  params = [];
  initial_cash = million;
  cost_model = none;
  fill_model = none;
  execution_model = none;
  benchmark = none;
  trade_on = codes "open";
  allow_short = false;
  periods_per_year = none;
  param_grid = none;
  metric = codes "sharpe";
  maximize = true;
  strategies = none;
  fee_models = none;
  n_simulations = 1000;
  seed = 0;
}

unfoldable pub of_opt_text : Option Text → Value
of_opt_text none = null
of_opt_text (some t) = text t

unfoldable pub of_opt_nat : Option ℕ → Value
of_opt_nat none = null
of_opt_nat (some n) = int (pos n)

unfoldable pub of_opt_grid : Option (Dict (List Value)) → Value
unfolding of_grid
of_opt_grid none = null
of_opt_grid (some g) = dict (of_grid g)

unfoldable pub of_opt_dict : Option (Dict Value) → Value
unfolding of_fields
of_opt_dict none = null
of_opt_dict (some d) = dict (of_fields d)

-- `list(self.fee_models) if self.fee_models else None`
unfoldable pub of_fee_models : Option (List Text) → Value
unfolding of_texts
of_fee_models none = null
of_fee_models (some []) = null
of_fee_models (some (f ∷ fs)) = list (of_texts (f ∷ fs))

unfoldable pub data_to_dict : DataSpec → Fields
unfolding of_texts
data_to_dict s = field (codes "symbols") (list (of_texts s.symbols)) (
    field (codes "timeframe") (text s.timeframe) (
      field (codes "start") (of_opt_text s.start) (
        field (codes "end") (of_opt_text s.end)
          (field (codes "source") (of_opt_text s.source) empty))))

unfoldable pub dispatch_to_dict : DispatchSpec → Fields
dispatch_to_dict s = field (codes "split_strategy") (text s.split_strategy) (
    field (codes "max_workers") (of_opt_nat s.max_workers) (
      field (codes "data_dispatch") (text s.data_dispatch) (
        field (codes "priority") (int s.priority) (
          field (codes "timeout") (int (pos s.timeout)) (
            field (codes "retry_count") (int (pos s.retry_count))
              (field (codes "preemptable") (bool s.preemptable) empty))))))

unfoldable pub compute_to_dict : ComputeSpec → Fields
unfolding of_fields
compute_to_dict s = field (codes "task_type") (text s.task_type) (
    field (codes "strategy_ref") (of_opt_text s.strategy_ref) (
      field (codes "strategy_codec") (text s.strategy_codec) (
        field (codes "params") (dict (of_fields s.params)) (
          field (codes "initial_cash") (float s.initial_cash) (
            field (codes "cost_model") (of_opt_text s.cost_model) (
              field (codes "fill_model") (of_opt_text s.fill_model) (
                field (codes "execution_model") (of_opt_text s.execution_model) (
                  field (codes "benchmark") (of_opt_text s.benchmark) (
                    field (codes "trade_on") (text s.trade_on) (
                      field (codes "allow_short") (bool s.allow_short) (
                        field (codes "periods_per_year") (of_opt_nat s.periods_per_year) (
                          field (codes "param_grid") (of_opt_grid s.param_grid) (
                            field (codes "metric") (text s.metric) (
                              field (codes "maximize") (bool s.maximize) (
                                field (codes "strategies") (of_opt_dict s.strategies) (
                                  field (codes "fee_models") (of_fee_models s.fee_models) (
                                    field (codes "n_simulations") (int (pos s.n_simulations)) (
                                      field (codes "seed") (int (pos s.seed))
                                        empty))))))))))))))))))

unfoldable pub to_dict : Runtime → TaskSpec → Fields
to_dict rt s = field (codes "task_id") (text s.task_id) (
    field (codes "data_spec") (dict (data_to_dict s.data_spec)) (
      field (codes "compute_spec") (dict (compute_to_dict s.compute_spec)) (
        field (codes "dispatch_spec") (dict (dispatch_to_dict s.dispatch_spec)) (
          field (codes "trace_id") (text s.trace_id) (
            field (codes "created_at") (text (rt.isoformat s.created_at))
              (field (codes "created_by") (text s.created_by) empty))))))
