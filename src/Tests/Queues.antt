-- ===== src/Tests/Queues.antt =====
-- The queue, and the search for a task, on concrete queues.
use stock_statistic.Common.{suc, ◌≡◌, refl, some, List, [], ◌∷◌, arith}
use stock_statistic.Common.Text.{Text, codes, text_eq, text_mem}
use stock_statistic.Dispatch.Queue.{
  Entry, TaskQueue, new_queue, enqueue, least, without, pop, dequeue, size,
}
use stock_statistic.Dispatch.Queue.Order.{IsValid, enqueue-IsValid}
use stock_statistic.Dispatch.Assign.{can_run, find_task}
use stock_statistic.Dispatch.Assign.Search.{Outcome, find_task-Outcome}
use stock_statistic.Tests.Samples.{backtest, screening}

abbrev two_tasks : TaskQueue
two_tasks = enqueue screening (enqueue backtest new_queue)

two_tasks-IsValid : IsValid two_tasks
two_tasks-IsValid =
    enqueue-IsValid screening (enqueue backtest new_queue)
      (enqueue-IsValid backtest new_queue (omega arith))

abbrev first_entry : Entry
first_entry = record { priority = screening.dispatch_spec.priority; counter = 2; spec = screening }

abbrev one_task : TaskQueue
one_task = record (enqueue backtest new_queue) { counter = 2 }

-- The later task comes first, by its priority.
popped : pop two_tasks ≡ some (first_entry, one_task)
unfolding pop enqueue least without
popped = refl

abbrev only_backtests : List Text
only_backtests = codes "backtest" ∷ []

find_task-Outcome_example :
    Outcome only_backtests [] two_tasks
      (find_task (suc (size two_tasks)) only_backtests [] two_tasks)
find_task-Outcome_example = find_task-Outcome only_backtests two_tasks two_tasks-IsValid

-- The task that the worker cannot run was passed over, and is not in the queue that is left.
screening_is_lost :
    find_task 3 only_backtests [] two_tasks ≡ (some backtest, record { entries = []; counter = 2 })
unfolding find_task dequeue pop enqueue least without can_run text_mem text_eq
screening_is_lost = refl
