-- ===== src/Dispatch/Run.antt =====
-- The dispatcher as a machine: the calls that its routes make
-- (packages/dispatcher/stockstat_dispatcher/routes.py) and the rounds of its background check, in
-- any order.
pub mod Invariant
pub mod Handlers
pub mod Sound
use stock_statistic.Common.{ℕ, ◌*◌, Bool, Option, none, some, List, [], ◌∷◌}
use stock_statistic.Common.Text.{Text}
use stock_statistic.Common.Dict.{Dict, put}
use stock_statistic.Protocol.Value.{Fields}
use stock_statistic.Protocol.Task.{TaskSpec}
use stock_statistic.Dispatch.Queue.{new_queue}
use stock_statistic.Dispatch.Workers.{
  WorkerRegistry, RegisterMessage, HeartbeatMessage, register, update_heartbeat, unregister,
}
use stock_statistic.Dispatch.State.{Outside, Dispatcher}
use stock_statistic.Dispatch.Client.{submit, cancel}
use stock_statistic.Dispatch.Assign.{assign_task}
use stock_statistic.Dispatch.Outcome.{ErrorReport, on_complete, on_fail, on_partial}
use stock_statistic.Dispatch.Watch.{check_round}

-- `Dispatcher(...)`: an empty cache of the given size, no worker and no task.
unfoldable pub new_dispatcher : (cache_size_mb offline_timeout : ℕ) → Dispatcher
new_dispatcher cache_size_mb offline_timeout = record {
  queue = new_queue;
  cache = record {
    max_size_bytes = cache_size_mb * 1024 * 1024;
    entries = [];
    total_size = 0;
    hits = 0;
    misses = 0;
  };
  workers = record { workers = []; offline_timeout = offline_timeout };
  tasks = [];
  task_history = [];
  sub_dispatchers = [];
}

pub data Request : Type 0 where
  submitted : TaskSpec → Request
  cancelled : (task_id : Text) → Request
  registered : (fresh : Text) → RegisterMessage → Request
  beaten : HeartbeatMessage → Request
  unregistered : (worker_id : Text) → Request
  asked : (worker_id : Text) (capabilities : List Text) → Request
  completed : (worker_id slice_id result : Text) → Request
  failed : (worker_id slice_id : Text) → ErrorReport → Request
  streamed : (slice_id : Text) → Fields → Request
  -- a round of the background check
  checked : Request

abbrev set_workers : Dispatcher → WorkerRegistry → Dispatcher
set_workers d r = record d { workers = r }

unfoldable pub step : Outside → ℕ → Request → Dispatcher → Dispatcher
step out now (submitted spec) d = (submit out now spec d).1
step out now (cancelled task_id) d = (cancel now task_id d).1
step out now (registered fresh msg) d = set_workers d (register fresh now msg d.workers).1
step out now (beaten msg) d = set_workers d (update_heartbeat now msg d.workers)
step out now (unregistered worker_id) d = set_workers d (unregister worker_id d.workers)
step out now (asked worker_id capabilities) d = (assign_task out now worker_id capabilities d).1
step out now (completed worker_id slice_id result) d =
    on_complete out now worker_id slice_id result d
step out now (failed worker_id slice_id e) d = on_fail now worker_id slice_id e d
step out now (streamed slice_id partial) d = on_partial slice_id partial d
step out now checked d = check_round now d

-- The requests with the times at which they are handled.
unfoldable pub run : Outside → List (ℕ × Request) → Dispatcher → Dispatcher
unfolding step
run out [] d = d
run out ((now, r) ∷ rs) d = run out rs (step out now r d)
