-- ===== src/Tests/Tasks.antt =====
-- Handing out, completing, retrying and reassigning tasks, on a concrete dispatcher.
use stock_statistic.Common.{
  ℕ, ◌+◌, ◌≤◌, ◌≡◌, refl, true, some, none, List, [], ◌∷◌, ◌++◌, map, arith,
}
use stock_statistic.Common.Sum.{sum_by}
use stock_statistic.Common.Lists.{concat}
use stock_statistic.Common.Text.{codes, text_eq}
use stock_statistic.Common.Dict.{get, values}
use stock_statistic.Protocol.Task.{TaskSpec}
use stock_statistic.Dispatch.Queue.{size, arrived_specs}
use stock_statistic.Dispatch.SliceId.{slice_id}
use stock_statistic.Dispatch.SliceId.Parent.{parent_id-slice_id}
use stock_statistic.Dispatch.State.{Outside, TaskEntry, Dispatcher}
use stock_statistic.Dispatch.Client.{new_entry}
use stock_statistic.Dispatch.Assign.{
  data_failed, after_prefetch, prefetch_data, data_for, inline_data, fetch_from_storage,
  prepare_assignment,
}
use stock_statistic.Dispatch.Cache.{get_ref}
use stock_statistic.Dispatch.Outcome.Completion.{Report, Completed, complete_each-Completed}
use stock_statistic.Dispatch.Outcome.Retry.{Failure, Retried, fail_each-Retried}
use stock_statistic.Dispatch.Watch.{reassign_worker_tasks}
use stock_statistic.Dispatch.Watch.Release.{held_by, freed, released, reassign_worker_tasks_lem}
use stock_statistic.Dispatch.Run.{new_dispatcher}
use stock_statistic.Dispatch.Run.{
  Request, submitted, asked, completed, failed, cancelled, registered, checked, run,
}
use stock_statistic.Dispatch.Run.Invariant.{IsSound}
use stock_statistic.Dispatch.Run.Sound.{run-IsSound, new_dispatcher-IsSound}
use stock_statistic.Tests.Samples.{sample_outside, marked_id, backtest, screening, start}

abbrev part : ℕ → TaskSpec
part i = record backtest { task_id = slice_id marked_id i }

-- A task of two slices, both of them with a worker.
abbrev entry : TaskEntry
entry = record (new_entry 5 backtest (part 0 ∷ part 1 ∷ [])) {
  assigned_slices = (slice_id marked_id 0, codes "w1") ∷ (slice_id marked_id 1, codes "w2") ∷ [];
}

abbrev working : Dispatcher
working = record start { tasks = (marked_id, entry) ∷ [] }

entry_is_there : get marked_id working.tasks ≡ some entry
unfolding get text_eq
entry_is_there = refl

abbrev report : ℕ → Report
report i = record {
  now = 9;
  worker_id = codes "w1";
  slice_id = slice_id marked_id i;
  result_b64 = codes "result";
}

two_slices : entry.info.completed_slices + 2 ≡ entry.info.n_slices
unfolding new_entry
two_slices = refl

complete_each-Completed_example :
    Completed sample_outside marked_id (report 0 ∷ report 1 ∷ []) entry working
complete_each-Completed_example =
    complete_each-Completed sample_outside marked_id (report 0 ∷ report 1 ∷ []) entry working
      entry_is_there (parent_id-slice_id marked_id 0, (parent_id-slice_id marked_id 1, tt))
      (omega arith) two_slices

abbrev failure : Failure
failure = record {
  now = 9;
  worker_id = codes "w1";
  slice_id = slice_id marked_id 0;
  error_message = none;
}

never_retried : entry.info.retry_count ≤ 3
unfolding new_entry
never_retried = omega arith

fail_each-Retried_example : Retried marked_id (failure ∷ failure ∷ []) entry working
fail_each-Retried_example =
    fail_each-Retried marked_id (failure ∷ failure ∷ []) entry working entry_is_there
      (parent_id-slice_id marked_id 0, (parent_id-slice_id marked_id 0, tt)) never_retried

reassign_worker_tasks_lem_example :
    (values (reassign_worker_tasks (codes "w1") working).tasks
      ≡ map (freed (codes "w1")) (values working.tasks))
    × (size (reassign_worker_tasks (codes "w1") working).queue
        ≡ size working.queue + sum_by (released (codes "w1")) (values working.tasks))
    × (arrived_specs (reassign_worker_tasks (codes "w1") working).queue
        ≡ arrived_specs working.queue ++ concat (map (held_by (codes "w1")) (values working.tasks)))
reassign_worker_tasks_lem_example = reassign_worker_tasks_lem (codes "w1") working

-- A storage that raises.
abbrev unreachable : Outside
unreachable = record sample_outside { storage_backend = some (λ _. none) }

failed_fetch : (prepare_assignment unreachable 7 backtest (codes "w1") working).0 ≡ data_failed
unfolding prepare_assignment prefetch_data after_prefetch get_ref data_for inline_data
    fetch_from_storage get text_eq new_dispatcher
failed_fetch = refl

abbrev requests : List (ℕ × Request)
requests =
    (1, submitted backtest)
    ∷ (2, submitted screening)
    ∷ (
      3,
      registered (codes "w1") (record {
        worker_id = none;
        alias = none;
        address = none;
        port = none;
        concurrency = some 2;
        hardware = none;
        capabilities = some (codes "custom" ∷ []);
        stockstat_version = none;
        labels = none;
        preemptable = none;
      }),
    )
    ∷ (4, asked (codes "w1") (codes "custom" ∷ []))
    ∷ (5, completed (codes "w1") (slice_id marked_id 0) (codes "result"))
    ∷ (
      6,
      failed (codes "w1") (slice_id marked_id 1)
          (record { error_message = none; retryable = true }),
    )
    ∷ (7, cancelled marked_id)
    ∷ (100, checked)
    ∷ []

run-IsSound_example : IsSound (run sample_outside requests start)
run-IsSound_example =
    run-IsSound sample_outside requests start
      (tt, (tt, (omega arith, (tt, (tt, (tt, (tt, (tt, tt)))))))) (new_dispatcher-IsSound 1 60)
