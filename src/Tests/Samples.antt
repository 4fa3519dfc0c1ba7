-- ===== src/Tests/Samples.antt =====
-- Concrete inputs: a runtime, what stands outside, and specifications of tasks.
use stock_statistic.Common.{true, ℕ, false, Option, none, some, List, [], ◌∷◌}
use stock_statistic.Common.Integer.{ℤ, pos, negsuc}
use stock_statistic.Common.Text.{Text, codes}
use stock_statistic.Protocol.Value.{null, object}
use stock_statistic.Protocol.Task.{
  Runtime, TaskSpec, default_data_spec, default_dispatch_spec, default_compute_spec,
}
use stock_statistic.Dispatch.State.{Outside, Dispatcher}
use stock_statistic.Dispatch.Run.{new_dispatcher}

abbrev read_date : Text → Option ℕ
read_date [] = none
read_date (n ∷ _) = some n

abbrev pub sample_runtime : Runtime
sample_runtime = record {
  isoformat = λ n. n ∷ [];
  fromisoformat = read_date;
  utcnow = 17;
  float_of_int = λ _. record { bits = 0 };
}

abbrev pub sample_outside : Outside
sample_outside = record {
  runtime = sample_runtime;
  set_order = λ ts. ts;
  digest = λ t. t;
  b64encode = λ b. b;
  b64decode = λ t. t;
  pickle = λ _. 128 ∷ 4 ∷ [];
  unpickle = λ _. null;
  is_readable = λ _. true;
  is_frame = λ _. false;
  concat_frames = λ _. null;
  storage_backend = some (λ _. some (object 3));
  storage_service = none;
}

abbrev pub spec_of : Text → Text → ℤ → List Text → TaskSpec
spec_of task_id task_type priority symbols = record {
  task_id = task_id;
  data_spec = record default_data_spec { symbols = symbols };
  compute_spec = default_compute_spec task_type;
  dispatch_spec = record default_dispatch_spec { priority = priority };
  trace_id = codes "trace";
  created_at = 17;
  created_by = codes "client";
}

abbrev pub two_symbols : List Text
two_symbols = codes "AAPL" ∷ codes "MSFT" ∷ []

-- Its id has the mark of a slice id in it.
abbrev pub marked_id : Text
marked_id = codes "job-s2"

abbrev pub screening : TaskSpec
screening = spec_of (codes "screen") (codes "signal_eval") (negsuc 0) two_symbols

abbrev pub backtest : TaskSpec
backtest = spec_of marked_id (codes "backtest") (pos 3) two_symbols

abbrev pub start : Dispatcher
start = new_dispatcher 1 60
