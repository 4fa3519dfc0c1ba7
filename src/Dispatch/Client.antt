-- ===== src/Dispatch/Client.antt =====
-- The methods that clients call: `submit`, `get_status`, `get_result` and `cancel`
-- (packages/dispatcher/stockstat_dispatcher/core.py).
use stock_statistic.Common.{ℕ, Bool, true, false, Option, none, some, List, [], ◌∷◌}
use stock_statistic.Common.Lists.{length}
use stock_statistic.Common.Text.{Text}
use stock_statistic.Common.Dict.{Dict, get, put}
use stock_statistic.Protocol.Task.{TaskSpec}
use stock_statistic.Dispatch.Cache.{Bytes}
use stock_statistic.Dispatch.Shard.{shard_task}
use stock_statistic.Dispatch.State.{
  Outside, TaskState, pending, completed, cancelled, Progress, TaskInfo, new_info, TaskEntry,
  Dispatcher, record_history, enqueue_all,
}

-- TaskNotFoundError and TaskNotReadyError
pub data ClientResult (A : Type 0) : Type 0 where
  ok : A → ClientResult A
  not_found : (task_id : Text) → ClientResult A
  not_ready : TaskState → ClientResult A

-- `{s.task_id: s for s in slices}`
unfoldable pub by_id : Dict TaskSpec → List TaskSpec → Dict TaskSpec
by_id d [] = d
by_id d (s ∷ ss) = by_id (put s.task_id s d) ss

unfoldable pub new_entry : ℕ → TaskSpec → List TaskSpec → TaskEntry
unfolding by_id
new_entry now spec slices = record {
  spec = spec;
  info = record (new_info now spec.task_id) { n_slices = length slices };
  slices = slices;
  slices_by_id = by_id [] slices;
  assigned_slices = [];
  partial_results = [];
  merged_result_bytes = [];
  stream_partials = [];
}

pub record Ack : Type 0 where
  pub task_id : Text
  pub status : TaskState
  pub n_slices : ℕ

unfoldable pub submit : Outside → ℕ → TaskSpec → Dispatcher → Ack × Dispatcher
unfolding new_entry enqueue_all
submit out now spec d =
    let slices = shard_task out.set_order spec in
    (
      record { task_id = spec.task_id; status = pending; n_slices = length slices },
      record d {
        tasks = put spec.task_id (new_entry now spec slices) d.tasks;
        queue = enqueue_all slices d.queue;
      },
    )

-- The fields of the status that is returned.
pub record Status : Type 0 where
  pub task_id : Text
  pub state : TaskState
  pub progress : Progress
  pub n_slices : ℕ
  pub completed_slices : ℕ
  pub worker_id : Option Text
  pub error : Option Text
  pub created_at : ℕ
  pub started_at : Option ℕ
  pub finished_at : Option ℕ

unfoldable pub status_of : TaskInfo → Status
status_of i = record {
  task_id = i.task_id;
  state = i.state;
  progress = i.progress;
  n_slices = i.n_slices;
  completed_slices = i.completed_slices;
  worker_id = i.worker_id;
  error = i.error;
  created_at = i.created_at;
  started_at = i.started_at;
  finished_at = i.finished_at;
}

unfoldable pub get_status : Text → Dispatcher → ClientResult Status
unfolding status_of
get_status task_id d = elim (get task_id d.tasks) [
  | none ↦ not_found task_id
  | some t ↦ ok (status_of t.info)
]

abbrev pub result_of : TaskEntry → ClientResult Bytes
result_of t = elim t.info.state [ completed ↦ ok t.merged_result_bytes | s ↦ not_ready s ]

unfoldable pub get_result : Text → Dispatcher → ClientResult Bytes
get_result task_id d = elim (get task_id d.tasks) [
  | none ↦ not_found task_id
  | some t ↦ result_of t
]

unfoldable pub cancel_entry : ℕ → TaskEntry → TaskEntry
cancel_entry now t = record t { info = record t.info { state = cancelled; finished_at = some now } }

unfoldable pub cancel : ℕ → Text → Dispatcher → Bool × Dispatcher
unfolding cancel_entry
cancel now task_id d = elim (get task_id d.tasks) [
  | none ↦ (false, d)
  | some t ↦
      let t' = cancel_entry now t in
      (true, record_history t' (record d { tasks = put task_id t' d.tasks }))
]
