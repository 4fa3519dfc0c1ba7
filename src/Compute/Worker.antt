-- ===== src/Compute/Worker.antt =====
-- Worker and TaskExecutor (packages/compute/stockstat_compute/worker.py and executor.py). What a
-- method posts to the dispatcher is its result. `_poll_and_execute` and `_execute`, which runs in
-- the thread pool, meet in the dictionary of the futures: the storing of a future is an operation
-- of its own.
pub mod Steps
pub mod Stuck
use stock_statistic.Common.{
  ℕ, zero, suc, ◌+◌, Bool, true, false, ◌&&◌, Option, none, some, List, [], ◌∷◌, ltb, if◌then◌else◌,
}
use stock_statistic.Common.Lists.{length, filter}
use stock_statistic.Common.Text.{Text, codes, text_eq, text_mem}
use stock_statistic.Common.Dict.{Dict, get, put, erase, keys}
use stock_statistic.Protocol.Value.{Value, null, text, Fields, field_or}
use stock_statistic.Protocol.Task.{TaskSpec}
use stock_statistic.Protocol.Decode.{from_dict}
use stock_statistic.Dispatch.Workers.{
  RegisterMessage, HeartbeatMessage, WorkerStatus, online, other,
}
use stock_statistic.Dispatch.State.{Outside}
use stock_statistic.Dispatch.Assign.{Assignment}
use stock_statistic.Dispatch.Outcome.{ErrorReport}
use stock_statistic.Dispatch.Run.{Request, completed, failed, streamed}
use stock_statistic.Compute.Local.{Outcome, returned, raised}

-- A future is not looked into while the worker runs.
pub record Future : Type 0 where

pub record Worker : Type 0 where
  pub concurrency : ℕ
  pub alias : Text
  pub labels : Dict Text
  pub capabilities : List Text
  pub preemptable : Bool
  pub active_futures : Dict Future
  pub stopping : Bool
  pub draining : Bool
  pub preempted : List Text
  pub worker_id : Option Text
  pub completed_count : ℕ
  pub failed_count : ℕ
  pub registered : Bool

-- `concurrency or os.cpu_count() or 1`
abbrev pub places : (concurrency cpu_count : Option ℕ) → ℕ
places (some (suc n)) cpus = suc n
places _ (some (suc n)) = suc n
places _ _ = 1

-- `given or default`
abbrev text_or : Text → Option Text → Text
text_or default (some (c ∷ t)) = c ∷ t
text_or default _ = default

abbrev labels_or_empty : Option (Dict Text) → Dict Text
labels_or_empty none = []
labels_or_empty (some d) = d

abbrev capabilities_or : List Text → Option (List Text) → List Text
capabilities_or all (some (c ∷ cs)) = c ∷ cs
capabilities_or all _ = all

-- `host` is the default alias, and `all_types` what `handlers` registers.
unfoldable pub new_worker :
    (cpu_count : Option ℕ) (host : Text) (all_types : List Text) (concurrency : Option ℕ)
    (alias : Option Text) (labels : Option (Dict Text)) (capabilities : Option (List Text))
    (preemptable : Bool)
    → Worker
new_worker cpu_count host all_types concurrency alias labels capabilities preemptable = record {
  concurrency = places concurrency cpu_count;
  alias = text_or host alias;
  labels = labels_or_empty labels;
  capabilities = capabilities_or all_types capabilities;
  preemptable = preemptable;
  active_futures = [];
  stopping = false;
  draining = false;
  preempted = [];
  worker_id = none;
  completed_count = 0;
  failed_count = 0;
  registered = false;
}

unfoldable pub stop : Worker → Worker
stop w = record w { stopping = true }

unfoldable pub drain : Worker → Worker
drain w = record w { draining = true }

-- A set of texts, without repetitions.
unfoldable pub preempt : Text → Worker → Worker
preempt slice_id w = record w {
  preempted = if text_mem slice_id w.preempted then w.preempted else slice_id ∷ w.preempted;
}

abbrev drop_text : Text → List Text → List Text
drop_text t [] = []
drop_text t (s ∷ ss) = let rest = drop_text t ss in if text_eq t s then rest else s ∷ rest

unfoldable pub resume : Text → Worker → Worker
resume slice_id w = record w { preempted = drop_text slice_id w.preempted }

-- The message of `_register`; `fresh` is the UUID.
unfoldable pub register_message :
    (fresh host : Text) → (hardware : Fields) → Worker → RegisterMessage
register_message fresh host hardware w = record {
  worker_id = some fresh;
  alias = some w.alias;
  address = some host;
  port = some 0;
  concurrency = some w.concurrency;
  hardware = some hardware;
  capabilities = some w.capabilities;
  stockstat_version = some (codes "3.1.0");
  labels = some w.labels;
  preemptable = some w.preemptable;
}

-- What follows the post: `none` where it raised, and else the id of the answer.
unfoldable pub after_register : Option (Option Text) → Worker → Worker
after_register none w = w
after_register (some worker_id) w = record w { worker_id = worker_id; registered = true }

-- `self._worker_id`, where it is neither `None` nor empty.
abbrev pub known_id : Option Text → Option Text
known_id (some (c ∷ t)) = some (c ∷ t)
known_id _ = none

abbrev heartbeat_of : (load : Fields) → Worker → Option Text → Option HeartbeatMessage
heartbeat_of load w none = none
heartbeat_of load w (some worker_id) = some (record {
  worker_id = some worker_id;
  load = some load;
  active_tasks = some (length w.active_futures);
  completed_tasks = some w.completed_count;
  failed_tasks = some w.failed_count;
  avg_task_duration_s = none;
  status = some (if w.draining then other (codes "draining") else online);
})

unfoldable pub send_heartbeat : (load : Fields) → Worker → Option HeartbeatMessage
send_heartbeat load w = heartbeat_of load w (known_id w.worker_id)

-- What `_poll_and_execute` asks the dispatcher, if it asks.
unfoldable pub poll : Worker → Option (Text × List Text)
poll w = elim (known_id w.worker_id) [
  | none ↦ none
  | some worker_id ↦
      if ltb (length w.active_futures) w.concurrency then some (worker_id, w.capabilities) else none
]

-- `assignment["task_spec"]["task_id"]`
abbrev text_of : Value → Text
text_of (text t) = t
text_of _ = []

unfoldable pub slice_of : Assignment → Text
slice_of a = text_of (field_or (codes "task_id") null a.task_spec)

-- `self._active_futures[slice_id] = future`
unfoldable pub store_future : Text → Worker → Worker
store_future slice_id w = record w { active_futures = put slice_id (record {}) w.active_futures }

-- `TaskExecutor.run`: `handler` is `dispatch` of the handlers, and `refusal` the message of the
-- exception where a dictionary is no specification.
unfoldable pub run_assignment :
    Outside
    → (refusal : Fields → Text) (handler : TaskSpec → Value → Outcome) → Assignment
    → Outcome
run_assignment out refusal handler a = elim (from_dict out.runtime a.task_spec) [
  | none ↦ raised (refusal a.task_spec)
  | some spec ↦
      handler spec (elim a.encoded [ [] ↦ null | c ∷ t ↦ out.unpickle (out.b64decode (c ∷ t)) ])
]

abbrev pub id_text : Worker → Text
id_text w = elim w.worker_id [ none ↦ [] | some t ↦ t ]

unfoldable pub send_complete : Outside → Text → Value → Worker → Request
send_complete out slice_id v w = completed (id_text w) slice_id (out.b64encode (out.pickle v))

unfoldable pub send_fail : Text → (message : Text) → Worker → Request
send_fail slice_id message w =
    failed (id_text w) slice_id (record { error_message = some message; retryable = false })

-- The `finally` of `_execute`.
abbrev forget : Text → Worker → Worker
forget slice_id w = record w { active_futures = erase slice_id w.active_futures }

-- The `except` of `_execute`; `lost` says whether the post raises, which leaves the count.
abbrev give_up : Text → (message : Text) → (lost : Bool) → Worker → Worker
give_up slice_id message lost w =
    forget slice_id
      (record w { failed_count = if lost then w.failed_count else w.failed_count + 1 })

-- The end of `_execute`, after the run: the posts that it tries, and the worker. `no_complete` has
-- the message where the post of the result raises.
unfoldable pub execute_end :
    Outside
    → Text
    → Outcome
    → (no_complete : Option Text) (lost : Bool) → Worker
    → List Request × Worker
unfolding send_complete send_fail
execute_end out slice_id (raised message) no_complete lost w =
    (send_fail slice_id message w ∷ [], give_up slice_id message lost w)
execute_end out slice_id (returned v) (some message) lost w = (
  send_complete out slice_id v w ∷ send_fail slice_id message w ∷ [],
  give_up slice_id message lost w,
)
execute_end out slice_id (returned v) none lost w = (
  send_complete out slice_id v w ∷ [],
  forget slice_id (record w { completed_count = w.completed_count + 1 }),
)

-- `_send_partial`
unfoldable pub send_partial : Text → Fields → Worker → Option Request
send_partial task_id partial w = elim (known_id w.worker_id) [
  | none ↦ none
  | some worker_id ↦ some (streamed task_id partial)
]

-- The loop of `start` goes on.
unfoldable pub goes_on : Worker → Bool
goes_on w = elim w.stopping [
  | true ↦ false
  | false ↦ elim w.draining [ false ↦ true | true ↦ ltb 0 (length w.active_futures) ]
]
