-- ===== src/Dispatch/Run/Handlers.antt =====
-- The methods that handle requests keep the dispatcher's invariant
-- (packages/dispatcher/stockstat_dispatcher/core.py).
use stock_statistic.Protocol.Value.{Fields}
use stock_statistic.Common.{
  ℕ, suc, Bool, true, false, Option, none, some, List, [], arith, Bool-cases, Option-cases, inl,
  inr,
}
use stock_statistic.Common.Text.{Text}
use stock_statistic.Common.Dict.{get, put, All-put, All-modify, All-get}
use stock_statistic.Protocol.Task.{TaskSpec}
use stock_statistic.Dispatch.Queue.{TaskQueue, size, enqueue}
use stock_statistic.Dispatch.Queue.Order.{IsValid, enqueue-IsValid}
use stock_statistic.Dispatch.Shard.{shard_task}
use stock_statistic.Dispatch.Workers.{decrement_active, increment_active}
use stock_statistic.Dispatch.Workers.Consistent
use stock_statistic.Dispatch.Workers.Consistent.{AllConsistent}
use stock_statistic.Dispatch.SliceId.{parent_id}
use stock_statistic.Dispatch.State.{Outside, TaskEntry, Dispatcher}
use stock_statistic.Dispatch.Client.{submit, cancel_entry, cancel}
use stock_statistic.Dispatch.Cache.{DataCache}
use stock_statistic.Dispatch.Cache.Accounted.{IsAccounted}
use stock_statistic.Dispatch.Assign.{
  find_task, after_prefetch, prepare_assignment, hand_out, assign_task,
}
use stock_statistic.Dispatch.Assign.Search.{find_task-IsValid, enqueue_all-IsValid}
use stock_statistic.Dispatch.Assign.Prefetch.{prefetch_data-IsAccounted}
use stock_statistic.Dispatch.Outcome.{
  add_result, finish, is_done, after_report, on_complete, ErrorReport, fail_entry, retry_entry,
  may_retry, after_failure, on_fail, on_partial,
}
use stock_statistic.Dispatch.Run.Invariant.{
  IsBudgeted, IsSound, with_task, with_workers, with_queue, budget_left, record_history-IsSound,
}

pub submit-IsSound :
    (out : Outside) (now : ℕ) (spec : TaskSpec) (d : Dispatcher)
    → IsSound d
    → IsSound (submit out now spec d).1
unfolding submit
submit-IsSound out now spec d h = record {
  queue = enqueue_all-IsValid (shard_task out.set_order spec) d.queue h.queue;
  cache = h.cache;
  workers = h.workers;
  tasks = All-put IsBudgeted spec.task_id _ d.tasks (omega arith) h.tasks;
  history = h.history;
}

pub cancel-IsSound :
    (now : ℕ) (task_id : Text) (d : Dispatcher) → IsSound d → IsSound (cancel now task_id d).1
unfolding cancel
cancel-IsSound now task_id d h = elim (Option-cases (get task_id d.tasks)) [
  | inl unknown ↦ rw (unknown, cancel) h
  | inr (t, known) ↦
      rw (known, cancel)
        (record_history-IsSound _ _ (
          with_task task_id (cancel_entry now t) d h
            (unfold cancel_entry in All-get IsBudgeted task_id d.tasks t h.tasks known)))
]

after_prefetch-IsSound :
    (out : Outside) (now : ℕ) (spec : TaskSpec) (worker_id : Text) (d : Dispatcher)
    (r : Option Text × DataCache)
    → IsSound d
    → IsAccounted r.1
    → IsSound (after_prefetch out now spec worker_id d r).1
unfolding after_prefetch increment_active Consistent.step
after_prefetch-IsSound out now spec worker_id d (none, c) h k = record {
  queue = h.queue;
  cache = k;
  workers = h.workers;
  tasks = h.tasks;
  history = h.history;
}
after_prefetch-IsSound out now spec worker_id d (some ref, c) h k = record {
  queue = h.queue;
  cache = k;
  workers = Consistent.step-IsConsistent (Consistent.incremented worker_id) d.workers tt h.workers;
  tasks = All-modify IsBudgeted (parent_id spec.task_id) _ d.tasks (λ t b. b) h.tasks;
  history = h.history;
}

prepare_assignment-IsSound :
    (out : Outside) (now : ℕ) (spec : TaskSpec) (worker_id : Text) (d : Dispatcher)
    → IsSound d
    → IsSound (prepare_assignment out now spec worker_id d).1
unfolding prepare_assignment
prepare_assignment-IsSound out now spec worker_id d h =
    after_prefetch-IsSound out now spec worker_id d _ h
      (prefetch_data-IsAccounted out now spec d.cache h.cache)

hand_out-IsSound :
    (out : Outside) (now : ℕ) (worker_id : Text) (d : Dispatcher) (r : Option TaskSpec × TaskQueue)
    → IsSound d
    → IsValid r.1
    → IsSound (hand_out out now worker_id d r).1
hand_out-IsSound out now worker_id d (none, q) h v = with_queue q d h v
hand_out-IsSound out now worker_id d (some spec, q) h v =
    prepare_assignment-IsSound out now spec worker_id (record d { queue = q }) (with_queue q d h v)

pub assign_task-IsSound :
    (out : Outside) (now : ℕ) (worker_id : Text) (capabilities : List Text) (d : Dispatcher)
    → IsSound d
    → IsSound (assign_task out now worker_id capabilities d).1
unfolding assign_task
assign_task-IsSound out now worker_id capabilities d h =
    hand_out-IsSound out now worker_id d (find_task (suc (size d.queue)) capabilities [] d.queue) h
      (find_task-IsValid capabilities d.queue h.queue)

decremented-IsSound :
    (worker_id : Text) (good bad : Bool) (d : Dispatcher)
    → IsSound d
    → IsSound (record d { workers = decrement_active worker_id good bad d.workers })
unfolding Consistent.step
decremented-IsSound worker_id good bad d h =
    with_workers d (decrement_active worker_id good bad d.workers) h (
      Consistent.step-IsConsistent (Consistent.decremented worker_id good bad) d.workers tt
        h.workers)

after_report-IsSound :
    (out : Outside) (now : ℕ) (worker_id parent : Text) (t : TaskEntry) (d : Dispatcher)
    → IsSound d
    → IsBudgeted t
    → IsSound (after_report out now worker_id parent t d)
unfolding after_report finish
after_report-IsSound out now worker_id parent t d h b =
    let counted =
      decremented-IsSound worker_id true false (record d { tasks = put parent t d.tasks })
        (with_task parent t d h b) in
    elim (Bool-cases (is_done t)) [
      | inl last ↦
          rw last (record_history-IsSound _ _ (with_task parent (finish out now t) _ counted b))
      | inr more ↦ rw more counted
    ]

pub on_complete-IsSound :
    (out : Outside) (now : ℕ) (worker_id slice_id result : Text) (d : Dispatcher)
    → IsSound d
    → IsSound (on_complete out now worker_id slice_id result d)
unfolding on_complete
on_complete-IsSound out now worker_id slice_id result d h =
    elim (Option-cases (get (parent_id slice_id) d.tasks)) [
      | inl unknown ↦ rw (unknown, on_complete) h
      | inr (t, known) ↦
          rw (known, on_complete)
            (after_report-IsSound out now worker_id (parent_id slice_id) _ d h (
              unfold add_result in All-get IsBudgeted (parent_id slice_id) d.tasks t h.tasks known))
    ]

after_failure-IsSound :
    (worker_id parent : Text) (e : ErrorReport) (t : TaskEntry) (d : Dispatcher)
    → IsSound d
    → IsBudgeted t
    → IsSound (after_failure worker_id parent e t d)
unfolding after_failure retry_entry
after_failure-IsSound worker_id parent e t d h b =
    let counted =
      decremented-IsSound worker_id false true (record d { tasks = put parent t d.tasks })
        (with_task parent t d h b) in
    elim (Bool-cases (may_retry e t)) [
      | inl again ↦ rw again (
          with_queue (enqueue t.spec d.queue) _
            (with_task parent (retry_entry t) _ counted (budget_left e t again))
            (enqueue-IsValid t.spec d.queue h.queue))
      | inr no_more ↦ rw no_more (record_history-IsSound t _ counted)
    ]

pub on_fail-IsSound :
    (now : ℕ) (worker_id slice_id : Text) (e : ErrorReport) (d : Dispatcher)
    → IsSound d
    → IsSound (on_fail now worker_id slice_id e d)
unfolding on_fail
on_fail-IsSound now worker_id slice_id e d h =
    elim (Option-cases (get (parent_id slice_id) d.tasks)) [
      | inl unknown ↦ rw (unknown, on_fail) h
      | inr (t, known) ↦
          rw (known, on_fail)
            (after_failure-IsSound worker_id (parent_id slice_id) e _ d h (
              unfold fail_entry in All-get IsBudgeted (parent_id slice_id) d.tasks t h.tasks known))
    ]

pub on_partial-IsSound :
    (slice_id : Text) (partial : Fields) (d : Dispatcher)
    → IsSound d
    → IsSound (on_partial slice_id partial d)
unfolding on_partial
on_partial-IsSound slice_id partial d h = elim (Option-cases (get (parent_id slice_id) d.tasks)) [
  | inl unknown ↦ rw (unknown, on_partial) h
  | inr (t, known) ↦
      rw (known, on_partial)
        (with_task (parent_id slice_id) _ d h
          (All-get IsBudgeted (parent_id slice_id) d.tasks t h.tasks known))
]
