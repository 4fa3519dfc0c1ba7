-- ===== src/Dispatch/Report.antt =====
-- What the dispatcher reports: `cluster_info`, `autoscaler_metrics` and `task_history`
-- (packages/dispatcher/stockstat_dispatcher/core.py), and the sub-dispatchers of `cluster.py`.
use stock_statistic.Common.{
  ℕ, ◌-◌, Bool, true, false, ◌&&◌, Option, none, some, List, ltb, ◌==◌, if◌then◌else◌,
}
use stock_statistic.Common.Lists.{length, drop, filter}
use stock_statistic.Common.Text.{Text}
use stock_statistic.Common.Dict.{Dict, values}
use stock_statistic.Protocol.Value.{Fields}
use stock_statistic.Dispatch.Queue.{size}
use stock_statistic.Dispatch.Cache.{hit_rate}
use stock_statistic.Dispatch.Workers.Report.{Row, RegistryStats, stats, list_workers}
use stock_statistic.Dispatch.State.{
  TaskState, pending, running, completed, failed, cancelled, HistoryEntry, Dispatcher,
}

pub record AutoscalerMetrics : Type 0 where
  pub queue_depth : ℕ
  pub active_tasks : ℕ
  pub total_concurrency : ℕ
  pub available_concurrency : ℕ
  pub online_workers : ℕ
  pub scale_up_recommended : Bool
  pub scale_down_recommended : Bool

unfoldable pub autoscaler_metrics : Dispatcher → AutoscalerMetrics
autoscaler_metrics d =
    let s = stats d.workers in
    let depth = size d.queue in
    record {
      queue_depth = depth;
      active_tasks = s.active_tasks;
      total_concurrency = s.total_concurrency;
      available_concurrency = s.available_concurrency;
      online_workers = s.online_workers;
      scale_up_recommended = ltb 20 depth && s.available_concurrency == 0;
      scale_down_recommended = depth == 0 && (ltb 0 s.available_concurrency && s.active_tasks == 0);
    }

abbrev same_state : TaskState → TaskState → Bool
same_state pending pending = true
same_state running running = true
same_state completed completed = true
same_state failed failed = true
same_state cancelled cancelled = true
same_state _ _ = false

-- `history[-limit:]`: the whole history where the limit is 0 or not below its length.
abbrev last_of : ℕ → List HistoryEntry → List HistoryEntry
last_of limit h = if limit == 0 then h else drop (length h - limit) h

abbrev of_state : Option TaskState → List HistoryEntry → List HistoryEntry
of_state none h = h
of_state (some s) h = filter (λ e. same_state e.state s) h

pub record HistoryPage : Type 0 where
  pub history : List HistoryEntry
  pub total : ℕ

unfoldable pub task_history : ℕ → Option TaskState → Dispatcher → HistoryPage
task_history limit state d = record {
  history = of_state state (last_of limit d.task_history);
  total = length d.task_history;
}

-- The part of `cluster_info` that the state determines.
pub record ClusterInfo : Type 0 where
  pub queue_depth : ℕ
  -- `size_mb` times 1024 * 1024
  pub cache_size_bytes : ℕ
  pub cache_hit_rate : Option (ℕ × ℕ)
  pub workers : List Row
  pub sub_dispatchers : List Fields
  pub stats : RegistryStats

unfoldable pub cluster_info : Bool → Bool → Dict Text → Dispatcher → ClusterInfo
cluster_info include_offline include_hardware filter_labels d = record {
  queue_depth = size d.queue;
  cache_size_bytes = d.cache.total_size;
  cache_hit_rate = hit_rate d.cache;
  workers = list_workers include_offline include_hardware filter_labels d.workers;
  sub_dispatchers = values d.sub_dispatchers;
  stats = stats d.workers;
}
