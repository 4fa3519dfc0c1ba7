-- ===== src/Dispatch/Run/Sound.antt =====
-- What holds of the dispatcher after any requests
-- (packages/dispatcher/stockstat_dispatcher/core.py).
use stock_statistic.Common.{ℕ, ◌<◌, sym, List, [], ◌∷◌, map}
use mathlib.Core.Path.{subst}
use stock_statistic.Common.Lists.{All}
use stock_statistic.Common.Text.{Text}
use stock_statistic.Common.Dict.{values}
use stock_statistic.Dispatch.Workers.{get_or, check_timeouts}
use stock_statistic.Dispatch.Workers.Consistent
use stock_statistic.Dispatch.Workers.Consistent.{AllConsistent}
use stock_statistic.Dispatch.State.{Outside, TaskEntry, Dispatcher}
use stock_statistic.Dispatch.Watch.{reassign_worker_tasks, reassign_all, check_round}
use stock_statistic.Dispatch.Watch.Release.{
  reassign_worker_tasks-IsValid, reassign_worker_tasks_lem, freed,
}
use stock_statistic.Common.{refl, arith}
use stock_statistic.Dispatch.Run.{
  new_dispatcher, Request, submitted, cancelled, registered, beaten, unregistered, asked, completed,
  failed, streamed, checked, step, run,
}
use stock_statistic.Dispatch.Run.Invariant.{IsBudgeted, IsSound, with_workers}
use stock_statistic.Dispatch.Run.Handlers.{
  submit-IsSound, cancel-IsSound, assign_task-IsSound, on_complete-IsSound, on_fail-IsSound,
  on_partial-IsSound,
}

-- A registration gives the worker at least one place.
abbrev pub HasPlaces : Request → Type 0
HasPlaces (registered fresh msg) = 0 < get_or 1 msg.concurrency
HasPlaces _ = Unit

freed-IsBudgeted :
    (worker_id : Text) (ts : List TaskEntry)
    → All IsBudgeted ts
    → All IsBudgeted (map (freed worker_id) ts)
freed-IsBudgeted worker_id [] h = tt
freed-IsBudgeted worker_id (t ∷ ts) h = (h.0, freed-IsBudgeted worker_id ts h.1)

reassign_worker_tasks-IsSound :
    (worker_id : Text) (d : Dispatcher) → IsSound d → IsSound (reassign_worker_tasks worker_id d)
unfolding reassign_worker_tasks
reassign_worker_tasks-IsSound worker_id d h = record {
  queue = reassign_worker_tasks-IsValid worker_id d h.queue;
  cache = h.cache;
  workers = h.workers;
  tasks =
      subst (All IsBudgeted) (sym (reassign_worker_tasks_lem worker_id d).0)
        (freed-IsBudgeted worker_id (values d.tasks) h.tasks);
  history = h.history;
}

reassign_all-IsSound : (ws : List Text) (d : Dispatcher) → IsSound d → IsSound (reassign_all ws d)
unfolding reassign_all
reassign_all-IsSound [] d h = h
reassign_all-IsSound (w ∷ ws) d h =
    reassign_all-IsSound ws (reassign_worker_tasks w d) (reassign_worker_tasks-IsSound w d h)

workers-IsSound :
    (e : Consistent.Event) (d : Dispatcher)
    → IsSound d
    → Consistent.HasPlaces e
    → IsSound (record d { workers = Consistent.step e d.workers })
workers-IsSound e d h p =
    with_workers d (Consistent.step e d.workers) h
      (Consistent.step-IsConsistent e d.workers p h.workers)

step-IsSound :
    (out : Outside) (now : ℕ) (r : Request) (d : Dispatcher)
    → HasPlaces r
    → IsSound d
    → IsSound (step out now r d)
unfolding step Consistent.step check_round
step-IsSound out now (submitted spec) d p h = submit-IsSound out now spec d h
step-IsSound out now (cancelled task_id) d p h = cancel-IsSound now task_id d h
step-IsSound out now (registered fresh msg) d p h =
    workers-IsSound (Consistent.registered fresh now msg) d h p
step-IsSound out now (beaten msg) d p h = workers-IsSound (Consistent.beaten now msg) d h tt
step-IsSound out now (unregistered wid) d p h = workers-IsSound (Consistent.unregistered wid) d h tt
step-IsSound out now (asked wid capabilities) d p h =
    assign_task-IsSound out now wid capabilities d h
step-IsSound out now (completed wid slice_id result) d p h =
    on_complete-IsSound out now wid slice_id result d h
step-IsSound out now (failed wid slice_id e) d p h = on_fail-IsSound now wid slice_id e d h
step-IsSound out now (streamed slice_id partial) d p h = on_partial-IsSound slice_id partial d h
step-IsSound out now checked d p h =
    reassign_all-IsSound (check_timeouts now d.workers).0 _
      (workers-IsSound (Consistent.checked now) d h tt)

abbrev pub AllHavePlaces : List (ℕ × Request) → Type 0
AllHavePlaces rs = All HasPlaces (map (λ (r : ℕ × Request). r.1) rs)

-- Where each registration gives at least one place, any requests and rounds of the check leave
-- the queue valid, the cache's account of its size right, each worker's status in agreement with
-- its counts, each task retried at most three times, and the history within its bound.
pub run-IsSound :
    (out : Outside) (rs : List (ℕ × Request)) (d : Dispatcher)
    → AllHavePlaces rs
    → IsSound d
    → IsSound (run out rs d)
unfolding run
run-IsSound out [] d p h = h
run-IsSound out ((now, r) ∷ rs) d p h =
    run-IsSound out rs (step out now r d) p.1 (step-IsSound out now r d p.0 h)

-- A new dispatcher is sound.
pub new_dispatcher-IsSound :
    (cache_size_mb offline_timeout : ℕ) → IsSound (new_dispatcher cache_size_mb offline_timeout)
unfolding new_dispatcher
new_dispatcher-IsSound cache_size_mb offline_timeout = record {
  queue = omega arith;
  cache = record { unique = tt; total = refl };
  workers = tt;
  tasks = tt;
  history = omega arith;
}
