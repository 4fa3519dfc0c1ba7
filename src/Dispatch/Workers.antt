-- ===== src/Dispatch/Workers.antt =====
-- WorkerRegistry (packages/dispatcher/stockstat_dispatcher/workers.py). Times are in seconds from a
-- fixed origin, counts are naturals, and the value of every `msg.get` is an optional field of the
-- message. Each method holds the registry's lock, so it is one step.
pub mod Report
pub mod Consistent
pub mod Timeouts
use stock_statistic.Common.{
  ℕ, ◌+◌, ◌-◌, Bool, true, false, Option, none, some, List, [], ◌∷◌, ltb, leb, if◌then◌else◌, ◌&&◌,
  ◌||◌, not,
}
use stock_statistic.Common.Lists.{length, filter, count_if}
use stock_statistic.Common.Sum.{sum_by}
use stock_statistic.Common.Text.{Text, text_eq, codes}
use stock_statistic.Common.Dict.{Dict, get, put, modify, values}
use stock_statistic.Protocol.Value.{Float, Fields, empty}

-- The status texts "online", "busy" and "offline", and any further one, such as "draining".
pub data WorkerStatus : Type 0 where
  online busy offline : WorkerStatus
  other : Text → WorkerStatus

pub record WorkerRecord : Type 0 where
  pub worker_id : Text
  pub alias : Text
  pub address : Text
  pub port : ℕ
  pub concurrency : ℕ
  pub hardware : Fields
  pub capabilities : List Text
  pub stockstat_version : Text
  pub labels : Dict Text
  pub preemptable : Bool
  pub status : WorkerStatus
  pub last_heartbeat : ℕ
  pub active_tasks : ℕ
  pub completed_tasks : ℕ
  pub failed_tasks : ℕ
  pub avg_task_duration_s : Float
  pub registered_at : ℕ
  pub last_load : Fields

pub record WorkerRegistry : Type 0 where
  pub workers : Dict WorkerRecord
  pub offline_timeout : ℕ

pub record RegisterMessage : Type 0 where
  pub worker_id : Option Text
  pub alias : Option Text
  pub address : Option Text
  pub port : Option ℕ
  pub concurrency : Option ℕ
  pub hardware : Option Fields
  pub capabilities : Option (List Text)
  pub stockstat_version : Option Text
  pub labels : Option (Dict Text)
  pub preemptable : Option Bool

pub record HeartbeatMessage : Type 0 where
  pub worker_id : Option Text
  pub load : Option Fields
  pub active_tasks : Option ℕ
  pub completed_tasks : Option ℕ
  pub failed_tasks : Option ℕ
  pub avg_task_duration_s : Option Float
  pub status : Option WorkerStatus

-- `msg.get(key, default)`
abbrev pub get_or {ℓ} : {A : Type ℓ} → A → Option A → A
get_or a none = a
get_or a (some b) = b

-- `msg.get("worker_id") or str(uuid.uuid4())`
abbrev pub id_or : Text → Option Text → Text
id_or fresh none = fresh
id_or fresh (some []) = fresh
id_or fresh (some (c ∷ t)) = c ∷ t

-- `fresh` is the new identifier, `now` the clock.
unfoldable pub new_worker : Text → ℕ → RegisterMessage → WorkerRecord
new_worker fresh now msg =
    let wid = id_or fresh msg.worker_id in
    record {
      worker_id = wid;
      alias = get_or wid msg.alias;
      address = get_or [] msg.address;
      port = get_or 0 msg.port;
      concurrency = get_or 1 msg.concurrency;
      hardware = get_or empty msg.hardware;
      capabilities = get_or [] msg.capabilities;
      stockstat_version = get_or [] msg.stockstat_version;
      labels = get_or [] msg.labels;
      preemptable = get_or false msg.preemptable;
      status = online;
      last_heartbeat = now;
      active_tasks = 0;
      completed_tasks = 0;
      failed_tasks = 0;
      avg_task_duration_s = record { bits = 0 };
      registered_at = now;
      last_load = empty;
    }

unfoldable pub register : Text → ℕ → RegisterMessage → WorkerRegistry → Text × WorkerRegistry
unfolding new_worker
register fresh now msg r =
    let wid = id_or fresh msg.worker_id in
    (wid, record r { workers = put wid (new_worker fresh now msg) r.workers })

-- The status after the counts of a heartbeat are stored.
abbrev pub settle : ℕ → ℕ → WorkerStatus → WorkerStatus
settle active concurrency online = if leb concurrency active then busy else online
settle active concurrency busy = if ltb active concurrency then online else busy
settle active concurrency s = s

unfoldable pub beat : ℕ → HeartbeatMessage → WorkerRecord → WorkerRecord
beat now msg w =
    let active : ℕ = get_or 0 msg.active_tasks in
    record w {
      last_heartbeat = now;
      last_load = get_or empty msg.load;
      active_tasks = active;
      completed_tasks = get_or w.completed_tasks msg.completed_tasks;
      failed_tasks = get_or w.failed_tasks msg.failed_tasks;
      avg_task_duration_s = get_or w.avg_task_duration_s msg.avg_task_duration_s;
      status = settle active w.concurrency (get_or online msg.status);
    }

unfoldable pub update_heartbeat : ℕ → HeartbeatMessage → WorkerRegistry → WorkerRegistry
unfolding beat
update_heartbeat now msg r = elim msg.worker_id [
  | none ↦ r
  | some [] ↦ r
  | some (c ∷ t) ↦ record r { workers = modify (c ∷ t) (beat now msg) r.workers }
]

abbrev pub switch_off : WorkerRecord → WorkerRecord
switch_off w = record w { status = offline }

unfoldable pub unregister : Text → WorkerRegistry → WorkerRegistry
unregister wid r = record r { workers = modify wid switch_off r.workers }

unfoldable pub take_task : WorkerRecord → WorkerRecord
take_task w = record w {
  active_tasks = w.active_tasks + 1;
  status = if leb w.concurrency (w.active_tasks + 1) then busy else w.status;
}

unfoldable pub increment_active : Text → WorkerRegistry → WorkerRegistry
unfolding take_task
increment_active wid r = record r { workers = modify wid take_task r.workers }

abbrev pub is_busy : WorkerStatus → Bool
is_busy busy = true
is_busy _ = false

-- `max(0, active_tasks - 1)` is the truncated subtraction.
unfoldable pub end_task : Bool → Bool → WorkerRecord → WorkerRecord
end_task completed failed w =
    let active : ℕ = w.active_tasks - 1 in
    record w {
      active_tasks = active;
      completed_tasks = if completed then w.completed_tasks + 1 else w.completed_tasks;
      failed_tasks = if failed then w.failed_tasks + 1 else w.failed_tasks;
      status = if ltb active w.concurrency && is_busy w.status then online else w.status;
    }

unfoldable pub decrement_active : Text → Bool → Bool → WorkerRegistry → WorkerRegistry
unfolding end_task
decrement_active wid completed failed r = record r {
  workers = modify wid (end_task completed failed) r.workers;
}

abbrev pub is_live : WorkerStatus → Bool
is_live online = true
is_live busy = true
is_live _ = false

-- A live worker whose last heartbeat is older than the timeout.
abbrev pub is_late : ℕ → ℕ → WorkerRecord → Bool
is_late now timeout w = is_live w.status && ltb timeout (now - w.last_heartbeat)

-- The loop over the dictionary: the changed records, and the ids of those that timed out.
unfoldable pub sweep : ℕ → ℕ → Dict WorkerRecord → List Text × Dict WorkerRecord
sweep now timeout [] = ([], [])
sweep now timeout ((k, w) ∷ d) =
    let rest = sweep now timeout d in
    if is_late now timeout w
    then (w.worker_id ∷ rest.0, (k, switch_off w) ∷ rest.1)
    else (rest.0, (k, w) ∷ rest.1)

unfoldable pub check_timeouts : ℕ → WorkerRegistry → List Text × WorkerRegistry
unfolding sweep
check_timeouts now r =
    let swept = sweep now r.offline_timeout r.workers in (swept.0, record r { workers = swept.1 })

-- `get`
unfoldable pub find_worker : Text → WorkerRegistry → Option WorkerRecord
find_worker worker_id r = get worker_id r.workers
