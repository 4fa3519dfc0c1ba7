-- ===== src/Dispatch/Run/Invariant.antt =====
-- The invariant of the dispatcher's state
-- (packages/dispatcher/stockstat_dispatcher/core.py).
use stock_statistic.Common.{◌+◌, ◌≤◌, ◌≡◌, true, arith}
use stock_statistic.Common.Lists.{length, All}
use stock_statistic.Common.Text.{Text}
use stock_statistic.Common.Dict.{put, values, All-put}
use stock_statistic.Dispatch.Queue.{TaskQueue}
use stock_statistic.Dispatch.Queue.Order.{IsValid}
use stock_statistic.Dispatch.Workers.{WorkerRegistry}
use stock_statistic.Dispatch.Workers.Consistent.{AllConsistent}
use stock_statistic.Dispatch.Cache.Accounted.{IsAccounted}
use stock_statistic.Dispatch.State.{
  TaskEntry, Dispatcher, history_max, history_entry, record_history,
}
use stock_statistic.Dispatch.State.History.{length-keep_last}
use stock_statistic.Dispatch.Outcome.{ErrorReport, may_retry}

-- A task is retried at most three times.
abbrev pub IsBudgeted : TaskEntry → Type 0
IsBudgeted t = t.info.retry_count ≤ 3

pub record IsSound (d : Dispatcher) : Type 0 where
  pub queue : IsValid d.queue
  pub cache : IsAccounted d.cache
  pub workers : AllConsistent d.workers
  pub tasks : All IsBudgeted (values d.tasks)
  pub history : length d.task_history ≤ history_max

pub with_task :
    (k : Text) (t : TaskEntry) (d : Dispatcher)
    → IsSound d
    → IsBudgeted t
    → IsSound (record d { tasks = put k t d.tasks })
with_task k t d h b = record {
  queue = h.queue;
  cache = h.cache;
  workers = h.workers;
  tasks = All-put IsBudgeted k t d.tasks b h.tasks;
  history = h.history;
}

pub with_workers :
    (d : Dispatcher) (r : WorkerRegistry)
    → IsSound d
    → AllConsistent r
    → IsSound (record d { workers = r })
with_workers d r h c = record {
  queue = h.queue;
  cache = h.cache;
  workers = c;
  tasks = h.tasks;
  history = h.history;
}

pub with_queue :
    (q : TaskQueue) (d : Dispatcher) → IsSound d → IsValid q → IsSound (record d { queue = q })
with_queue q d h v = record {
  queue = v;
  cache = h.cache;
  workers = h.workers;
  tasks = h.tasks;
  history = h.history;
}

pub budget_left :
    (e : ErrorReport) (t : TaskEntry) → may_retry e t ≡ true → t.info.retry_count + 1 ≤ 3
budget_left e t h = ground arith

pub record_history-IsSound :
    (t : TaskEntry) (d : Dispatcher) → IsSound d → IsSound (record_history t d)
unfolding record_history
record_history-IsSound t d h = record {
  queue = h.queue;
  cache = h.cache;
  workers = h.workers;
  tasks = h.tasks;
  history = length-keep_last d.task_history (history_entry t);
}
