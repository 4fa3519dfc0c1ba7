-- ===== src/Dispatch/Outcome.antt =====
-- What workers report: `on_complete`, `on_fail` and `on_partial`
-- (packages/dispatcher/stockstat_dispatcher/core.py).
pub mod Completion
pub mod Retry
use stock_statistic.Common.{
  ℕ, suc, ◌+◌, Bool, true, false, ◌&&◌, Option, none, some, List, [], ◌∷◌, ◌++◌, ltb, ◌==◌,
  if◌then◌else◌,
}
use stock_statistic.Common.Text.{Text, codes}
use stock_statistic.Common.Dict.{Dict, get, put}
use stock_statistic.Protocol.Value.{Fields}
use stock_statistic.Dispatch.Queue.{enqueue}
use stock_statistic.Dispatch.Workers.{decrement_active}
use stock_statistic.Dispatch.Cache.{Bytes}
use stock_statistic.Dispatch.SliceId.{parent_id}
use stock_statistic.Dispatch.State.{
  Outside, TaskState, pending, completed, failed, Progress, TaskInfo, TaskEntry, Dispatcher,
  record_history, merge_results,
}

-- `completed / n_slices if n_slices > 0 else 1.0`
abbrev pub progress_of : ℕ → ℕ → Progress
progress_of done n =
    if ltb 0 n then record { part = done; whole = n } else record { part = 1; whole = 1 }

-- The entry with the result of a slice.
unfoldable pub add_result : Text → Bytes → TaskEntry → TaskEntry
add_result slice_id bytes t =
    let done : ℕ = t.info.completed_slices + 1 in
    record t {
      partial_results = put slice_id bytes t.partial_results;
      info = record t.info { completed_slices = done; progress = progress_of done t.info.n_slices };
    }

-- The entry of a task whose slices are all in.
unfoldable pub finish : Outside → ℕ → TaskEntry → TaskEntry
finish out now t = record t {
  merged_result_bytes = merge_results out t;
  info = record t.info {
    state = completed;
    finished_at = some now;
    progress = record { part = 1; whole = 1 };
  };
}

abbrev pub is_done : TaskEntry → Bool
is_done t = t.info.completed_slices == t.info.n_slices

-- A write of a task's entry.
abbrev pub set_task : Text → TaskEntry → Dispatcher → Dispatcher
set_task k t d = record d { tasks = put k t d.tasks }

-- What follows the look-up of the parent: the entry with the result is written, the worker is
-- freed, and a task whose slices are all in is finished and recorded.
unfoldable pub after_report : Outside → ℕ → Text → Text → TaskEntry → Dispatcher → Dispatcher
unfolding finish
after_report out now worker_id parent t d =
    let d' : Dispatcher = record d {
      tasks = put parent t d.tasks;
      workers = decrement_active worker_id true false d.workers;
    } in
    let t' = finish out now t in if is_done t then record_history t' (set_task parent t' d') else d'

unfoldable pub on_complete : Outside → ℕ → Text → Text → Text → Dispatcher → Dispatcher
unfolding add_result after_report
on_complete out now worker_id slice_id result_b64 d =
    let parent = parent_id slice_id in
    elim (get parent d.tasks) [
      | none ↦ d
      | some t ↦
          after_report out now worker_id parent (add_result slice_id (out.b64decode result_b64) t) d
    ]

-- The error of a failed slice: `error_message` and `retryable`.
pub record ErrorReport : Type 0 where
  pub error_message : Option Text
  pub retryable : Bool

abbrev message_of : ErrorReport → Text
message_of e = elim e.error_message [ none ↦ codes "Unknown error" | some m ↦ m ]

unfoldable pub fail_entry : ℕ → ErrorReport → TaskEntry → TaskEntry
fail_entry now e t = record t {
  info = record t.info { state = failed; error = some (message_of e); finished_at = some now };
}

unfoldable pub retry_entry : TaskEntry → TaskEntry
retry_entry t = record t {
  info = record t.info { retry_count = t.info.retry_count + 1; state = pending };
}

-- `error.get("retryable", False) and retry_count < 3`
abbrev pub may_retry : ErrorReport → TaskEntry → Bool
may_retry e t = e.retryable && ltb t.info.retry_count 3

-- What follows the look-up of the parent: the failed entry is written and the worker is freed;
-- then the whole task is enqueued again, or its failure is recorded.
unfoldable pub after_failure : Text → Text → ErrorReport → TaskEntry → Dispatcher → Dispatcher
unfolding retry_entry
after_failure worker_id parent e t d =
    let d' : Dispatcher = record d {
      tasks = put parent t d.tasks;
      workers = decrement_active worker_id false true d.workers;
    } in
    let again = set_task parent (retry_entry t) d' in
    if may_retry e t then record again { queue = enqueue t.spec d.queue } else record_history t d'

unfoldable pub on_fail : ℕ → Text → Text → ErrorReport → Dispatcher → Dispatcher
unfolding fail_entry after_failure
on_fail now worker_id slice_id e d =
    let parent = parent_id slice_id in
    elim (get parent d.tasks) [
      | none ↦ d
      | some t ↦ after_failure worker_id parent e (fail_entry now e t) d
    ]

unfoldable pub on_partial : Text → Fields → Dispatcher → Dispatcher
on_partial slice_id partial d =
    let parent = parent_id slice_id in
    elim (get parent d.tasks) [
      | none ↦ d
      | some t ↦
          set_task parent (record t { stream_partials = t.stream_partials ++ partial ∷ [] }) d
    ]
