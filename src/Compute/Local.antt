-- ===== src/Compute/Local.antt =====
-- LocalComputeBackend (packages/compute/stockstat_compute/backend/local.py). A task runs in a thread
-- of its own, on the task's state; what its handler returns or raises is open, and the parts of
-- `_run_local` before and after the handler are the thread's two steps.
pub mod Threads
use stock_statistic.Common.{
  ℕ, ◌+◌, Bool, true, false, ◌&&◌, Option, none, some, List, [], ◌∷◌, ◌++◌, is_some, if◌then◌else◌,
}
use stock_statistic.Common.Lists.{count_if}
use stock_statistic.Common.Text.{Text, codes}
use stock_statistic.Common.Dict.{Dict, get, put, erase, values}
use stock_statistic.Protocol.Value.{Value, null}
use stock_statistic.Protocol.Task.{ComputeSpec, TaskSpec}
use stock_statistic.Dispatch.State.{
  TaskState, pending, running, completed, failed, cancelled, TaskInfo, new_info,
}

-- `_LocalTaskState`; the error is its text, and `done` the event of that name.
pub record LocalTask : Type 0 where
  pub spec : TaskSpec
  pub info : TaskInfo
  pub result : Value
  pub error : Option Text
  pub partials : List Value
  pub done : Bool

abbrev pub data_key : Text
data_key = codes "_inline_data"

abbrev value_or_null : Option Value → Value
value_or_null none = null
value_or_null (some v) = v

abbrev has_strategies : Option (Dict Value) → Bool
has_strategies none = false
has_strategies (some []) = false
has_strategies (some (_ ∷ _)) = true

-- `if data is None and "_inline_data" in cs.params`
abbrev pop_again : Value → Dict Value → Value × Dict Value
pop_again null params =
    if is_some (get data_key params)
    then (value_or_null (get data_key params), erase data_key params)
    else (null, params)
pop_again v params = (v, params)

-- The data for the handler and the parameters that are left.
unfoldable pub take_data : ComputeSpec → Value × Dict Value
take_data cs = elim (value_or_null (get data_key cs.params)) [
  | null ↦
      if has_strategies cs.strategies && is_some (get data_key cs.params)
      then pop_again (value_or_null (get data_key cs.params)) (erase data_key cs.params)
      else pop_again null cs.params
  | v ↦ pop_again v (erase data_key cs.params)
]

unfoldable pub new_task : ℕ → TaskSpec → LocalTask
new_task now spec = record {
  spec = spec;
  info = new_info now spec.task_id;
  result = null;
  error = none;
  partials = [];
  done = false;
}

-- `submit` stores the task; its thread starts with this state.
unfoldable pub submit : ℕ → TaskSpec → Dict LocalTask → Text × Dict LocalTask
submit now spec tasks = (spec.task_id, put spec.task_id (new_task now spec) tasks)

-- The thread up to the call of the handler: the data that the handler gets, and the state.
unfoldable pub begin : ℕ → LocalTask → Value × LocalTask
begin now t =
    let (inline, params) = take_data t.spec.compute_spec in
    (
      inline,
      record t {
        spec = record t.spec { compute_spec = record t.spec.compute_spec { params = params } };
        info = record t.info { state = running; started_at = some now };
      },
    )

-- What the handler does.
pub data Outcome : Type 0 where
  returned : Value → Outcome
  raised : (message : Text) → Outcome

-- The thread after the handler, `finally` included.
unfoldable pub conclude : ℕ → Outcome → LocalTask → LocalTask
conclude now (returned v) t = record t {
  result = v;
  info = record t.info {
    state = completed;
    progress = record { part = 1; whole = 1 };
    finished_at = some now;
  };
  done = true;
}
conclude now (raised message) t = record t {
  error = some message;
  info = record t.info { state = failed; error = some message; finished_at = some now };
  done = true;
}

abbrev pub is_open : TaskState → Bool
is_open pending = true
is_open running = true
is_open _ = false

-- `cancel` of a task that is there.
unfoldable pub cancel_task : ℕ → LocalTask → Bool × LocalTask
cancel_task now t =
    if is_open t.info.state
    then (
      true,
      record t { info = record t.info { state = cancelled; finished_at = some now }; done = true },
    )
    else (false, t)

unfoldable pub cancel : ℕ → Text → Dict LocalTask → Bool × Dict LocalTask
unfolding cancel_task
cancel now task_id tasks = elim (get task_id tasks) [
  | none ↦ (false, tasks)
  | some t ↦ let (changed, t') = cancel_task now t in (changed, put task_id t' tasks)
]

-- TaskNotFoundError, TaskNotReadyError, TaskTimeoutError, TaskError and TaskCancelledError
pub data Answer (A : Type 0) : Type 0 where
  ok : A → Answer A
  not_found : Answer A
  not_ready : TaskState → Answer A
  timed_out : Answer A
  task_failed : (message : Text) → Answer A
  task_cancelled : Answer A

unfoldable pub get_info : Text → Dict LocalTask → Answer TaskInfo
get_info task_id tasks = elim (get task_id tasks) [ none ↦ not_found | some t ↦ ok t.info ]

abbrev pub result_of : LocalTask → Answer Value
result_of t = elim t.info.state [ completed ↦ ok t.result | s ↦ not_ready s ]

unfoldable pub result : Text → Dict LocalTask → Answer Value
result task_id tasks = elim (get task_id tasks) [ none ↦ not_found | some t ↦ result_of t ]

abbrev failure_of : Option Text → Text
failure_of none = codes "Task failed"
failure_of (some message) = message

-- What `wait` answers when it stops waiting, on the event or at its timeout.
abbrev pub wait_of : LocalTask → Answer Value
wait_of t =
    if t.done
    then (elim t.info.state [
      | failed ↦ task_failed (failure_of t.error)
      | cancelled ↦ task_cancelled
      | s ↦ ok t.result
    ])
    else timed_out

unfoldable pub wait : Text → Dict LocalTask → Answer Value
wait task_id tasks = elim (get task_id tasks) [ none ↦ not_found | some t ↦ wait_of t ]

-- What `stream_results` yields of a task that is done.
unfoldable pub streamed : LocalTask → List Value
streamed t = t.partials ++ elim t.info.state [ completed ↦ t.result ∷ [] | s ↦ [] ]

abbrev is_running : LocalTask → Bool
is_running t = elim t.info.state [ running ↦ true | s ↦ false ]

-- The count of running tasks in `cluster_info`.
unfoldable pub active_tasks : Dict LocalTask → ℕ
active_tasks tasks = count_if is_running (values tasks)
