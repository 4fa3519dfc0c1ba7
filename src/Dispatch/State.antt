-- ===== src/Dispatch/State.antt =====
-- The state of the dispatcher, and the parts that its methods share
-- (packages/dispatcher/stockstat_dispatcher/core.py, merge.py and
-- packages/foundation/stockstat_foundation/contracts/compute.py). The HTTP handlers run one at a
-- time, and so a method is one step; `now` is the clock at its call, in microseconds.
pub mod History
use stock_statistic.Common.{
  ℕ, zero, suc, ◌+◌, ◌-◌, Bool, true, false, ◌||◌, ◌&&◌, Option, none, some, List, [], ◌∷◌, ◌++◌,
  map, ltb, if◌then◌else◌,
}
use stock_statistic.Common.Lists.{length, drop}
use stock_statistic.Common.Text.{Text, codes, text_eq}
use stock_statistic.Common.Dict.{Dict, values}
use stock_statistic.Protocol.Value.{Value, list, of_items, Fields}
use stock_statistic.Protocol.Task.{Runtime, DataSpec, TaskSpec}
use stock_statistic.Dispatch.Queue.{TaskQueue, enqueue}
use stock_statistic.Dispatch.Workers.{WorkerRegistry}
use stock_statistic.Dispatch.Cache.{Bytes, DataCache}

-- What the dispatcher calls and the repository does not define.
pub record Outside : Type 0 where
  pub runtime : Runtime
  -- the order in which Python lists a set
  pub set_order : List Text → List Text
  -- the first 32 characters of a SHA-256
  pub digest : Text → Text
  pub b64encode : Bytes → Text
  pub b64decode : Text → Bytes
  -- cloudpickle
  pub pickle : Value → Bytes
  pub unpickle : Bytes → Value
  -- whether base64 and cloudpickle read an inline text without an exception
  pub is_readable : Text → Bool
  -- pandas
  pub is_frame : Value → Bool
  pub concat_frames : List Value → Value
  -- `fetch_ohlcv` of the storage backend, if there is one; `none` is an exception
  pub storage_backend : Option (DataSpec → Option Value)
  -- the storage service at the storage URL, if there is one, and the reading of its answer; `none`
  -- is an exception
  pub storage_service : Option (DataSpec → Option Value)

pub data TaskState : Type 0 where
  pending running completed failed cancelled : TaskState

-- The quotient of two counts, which the program stores as a float.
pub record Progress : Type 0 where
  pub part : ℕ
  pub whole : ℕ

pub record TaskInfo : Type 0 where
  pub task_id : Text
  pub state : TaskState
  pub progress : Progress
  pub created_at : ℕ
  pub started_at : Option ℕ
  pub finished_at : Option ℕ
  pub error : Option Text
  pub worker_id : Option Text
  pub slice_id : Option Text
  pub n_slices : ℕ
  pub completed_slices : ℕ
  pub retry_count : ℕ

-- `TaskInfo(task_id=..., state=TaskState.PENDING)`
abbrev pub new_info : ℕ → Text → TaskInfo
new_info now task_id = record {
  task_id = task_id;
  state = pending;
  progress = record { part = 0; whole = 1 };
  created_at = now;
  started_at = none;
  finished_at = none;
  error = none;
  worker_id = none;
  slice_id = none;
  n_slices = 1;
  completed_slices = 0;
  retry_count = 0;
}

-- `_TaskState`
pub record TaskEntry : Type 0 where
  pub spec : TaskSpec
  pub info : TaskInfo
  pub slices : List TaskSpec
  pub slices_by_id : Dict TaskSpec
  pub assigned_slices : Dict Text
  pub partial_results : Dict Bytes
  pub merged_result_bytes : Bytes
  pub stream_partials : List Fields

pub record HistoryEntry : Type 0 where
  pub task_id : Text
  pub task_type : Text
  pub state : TaskState
  pub created_at : ℕ
  pub started_at : Option ℕ
  pub finished_at : Option ℕ
  pub duration : Option ℕ
  pub worker_id : Option Text
  pub error : Option Text
  pub trace_id : Text

pub record Dispatcher : Type 0 where
  pub queue : TaskQueue
  pub cache : DataCache
  pub workers : WorkerRegistry
  pub tasks : Dict TaskEntry
  pub task_history : List HistoryEntry
  pub sub_dispatchers : Dict Fields

-- `_history_max`
abbrev pub history_max : ℕ
history_max = 1000

abbrev duration_of : Option ℕ → Option ℕ → Option ℕ
duration_of (some start) (some stop) = some (stop - start)
duration_of _ _ = none

unfoldable pub history_entry : TaskEntry → HistoryEntry
history_entry t = record {
  task_id = t.info.task_id;
  task_type = t.spec.compute_spec.task_type;
  state = t.info.state;
  created_at = t.info.created_at;
  started_at = t.info.started_at;
  finished_at = t.info.finished_at;
  duration = duration_of t.info.started_at t.info.finished_at;
  worker_id = t.info.worker_id;
  error = t.info.error;
  trace_id = t.spec.trace_id;
}

-- The last `history_max` entries of the history and a new one.
unfoldable pub keep_last : List HistoryEntry → HistoryEntry → List HistoryEntry
keep_last h e =
    let longer = h ++ e ∷ [] in
    if ltb history_max (length longer) then drop (length longer - history_max) longer else longer

unfoldable pub record_history : TaskEntry → Dispatcher → Dispatcher
unfolding keep_last history_entry
record_history t d = record d { task_history = keep_last d.task_history (history_entry t) }

unfoldable pub enqueue_all : List TaskSpec → TaskQueue → TaskQueue
enqueue_all [] q = q
enqueue_all (s ∷ ss) q = enqueue_all ss (enqueue s q)

-- The kinds of task whose results are put together.
abbrev pub is_merged : Text → Bool
is_merged t =
    text_eq t (codes "grid_search")
    || text_eq t (codes "batch_backtest")
    || text_eq t (codes "monte_carlo")
    || text_eq t (codes "bootstrap")
    || text_eq t (codes "permutation_test")

-- `all(isinstance(d, pd.DataFrame) for d in decoded)`
unfoldable pub all_frames : Outside → List Value → Bool
all_frames out [] = true
all_frames out (v ∷ vs) = out.is_frame v && all_frames out vs

abbrev pub merge_partials : Outside → Text → List Bytes → Bytes
merge_partials out task_type [] = []
merge_partials out task_type (p ∷ []) = p
merge_partials out task_type (p ∷ q ∷ ps) =
    let decoded = map out.unpickle (p ∷ q ∷ ps) in
    if is_merged task_type
    then (if all_frames out decoded
        then out.pickle (out.concat_frames decoded)
        else out.pickle (list (of_items decoded)))
    else p

unfoldable pub merge_results : Outside → TaskEntry → Bytes
unfolding all_frames of_items
merge_results out t = merge_partials out t.spec.compute_spec.task_type (values t.partial_results)
