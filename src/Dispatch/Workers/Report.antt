-- ===== src/Dispatch/Workers/Report.antt =====
-- `list_workers` and `stats` of WorkerRegistry
-- (packages/dispatcher/stockstat_dispatcher/workers.py).
pub mod Counts
use stock_statistic.Common.{
  ℕ, ◌-◌, Bool, true, false, Option, none, some, List, [], ◌∷◌, if◌then◌else◌, ◌&&◌, ◌||◌, not,
}
use stock_statistic.Common.Lists.{length, count_if}
use stock_statistic.Common.Sum.{sum_by}
use stock_statistic.Common.Text.{Text, text_eq}
use stock_statistic.Common.Dict.{Dict, get, values}
use stock_statistic.Protocol.Value.{Float, Fields}
use stock_statistic.Dispatch.Workers.{
  WorkerStatus, online, offline, WorkerRecord, WorkerRegistry, is_live, is_busy,
}

-- A row of the listing; `hardware` is left out unless it is asked for.
pub record Row : Type 0 where
  pub worker_id : Text
  pub alias : Text
  pub address : Text
  pub port : ℕ
  pub status : WorkerStatus
  pub concurrency : ℕ
  pub active_tasks : ℕ
  pub completed_tasks : ℕ
  pub failed_tasks : ℕ
  pub avg_task_duration_s : Float
  pub last_heartbeat : ℕ
  pub capabilities : List Text
  pub stockstat_version : Text
  pub labels : Dict Text
  pub load : Fields
  pub hardware : Option Fields

unfoldable pub row_of : Bool → WorkerRecord → Row
row_of include_hardware w = record {
  worker_id = w.worker_id;
  alias = w.alias;
  address = w.address;
  port = w.port;
  status = w.status;
  concurrency = w.concurrency;
  active_tasks = w.active_tasks;
  completed_tasks = w.completed_tasks;
  failed_tasks = w.failed_tasks;
  avg_task_duration_s = w.avg_task_duration_s;
  last_heartbeat = w.last_heartbeat;
  capabilities = w.capabilities;
  stockstat_version = w.stockstat_version;
  labels = w.labels;
  load = w.last_load;
  hardware = if include_hardware then some w.hardware else none;
}

-- `w.labels.get(k) == v`
abbrev pub label_is : Text → Option Text → Bool
label_is v none = false
label_is v (some u) = text_eq u v

-- `all(w.labels.get(k) == v for k, v in filter_labels.items())`; no filter is the empty one.
unfoldable pub has_labels : Dict Text → WorkerRecord → Bool
has_labels [] w = true
has_labels ((k, v) ∷ fs) w = label_is v (get k w.labels) && has_labels fs w

abbrev pub is_offline : WorkerStatus → Bool
is_offline offline = true
is_offline _ = false

abbrev pub is_listed : Bool → Dict Text → WorkerRecord → Bool
is_listed include_offline filter_labels w =
    not (is_offline w.status && not include_offline) && has_labels filter_labels w

unfoldable pub rows : Bool → Bool → Dict Text → List WorkerRecord → List Row
unfolding row_of has_labels
rows include_offline include_hardware filter_labels [] = []
rows include_offline include_hardware filter_labels (w ∷ ws) =
    let rest = rows include_offline include_hardware filter_labels ws in
    if is_listed include_offline filter_labels w then row_of include_hardware w ∷ rest else rest

unfoldable pub list_workers : Bool → Bool → Dict Text → WorkerRegistry → List Row
unfolding rows
list_workers include_offline include_hardware filter_labels r =
    rows include_offline include_hardware filter_labels (values r.workers)

pub record RegistryStats : Type 0 where
  pub total_workers : ℕ
  pub online_workers : ℕ
  pub busy_workers : ℕ
  pub offline_workers : ℕ
  pub total_concurrency : ℕ
  pub available_concurrency : ℕ
  pub active_tasks : ℕ
  pub total_completed : ℕ
  pub total_failed : ℕ

abbrev pub is_online : WorkerStatus → Bool
is_online online = true
is_online _ = false

-- The free places of a worker, of a live one only.
abbrev pub free_places : WorkerRecord → ℕ
free_places w = if is_live w.status then w.concurrency - w.active_tasks else 0

unfoldable pub stats : WorkerRegistry → RegistryStats
stats r =
    let ws = values r.workers in
    record {
      total_workers = length ws;
      online_workers = count_if (λ w. is_online w.status) ws;
      busy_workers = count_if (λ w. is_busy w.status) ws;
      offline_workers = count_if (λ w. is_offline w.status) ws;
      total_concurrency = sum_by (λ w. w.concurrency) ws;
      available_concurrency = sum_by free_places ws;
      active_tasks = sum_by (λ w. w.active_tasks) ws;
      total_completed = sum_by (λ w. w.completed_tasks) ws;
      total_failed = sum_by (λ w. w.failed_tasks) ws;
    }
