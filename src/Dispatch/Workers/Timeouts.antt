-- ===== src/Dispatch/Workers/Timeouts.antt =====
-- What `check_timeouts` does to the registry
-- (packages/dispatcher/stockstat_dispatcher/workers.py).
use stock_statistic.Common.{ℕ, ◌≡◌, List, [], map, if◌then◌else◌}
use stock_statistic.Common.Lists.{filter}
use stock_statistic.Common.Dict.{Dict, values, keys}
use stock_statistic.Dispatch.Workers.{
  WorkerRecord, WorkerRegistry, switch_off, is_late, check_timeouts,
}

-- The workers that time out, in the order of the registry.
abbrev pub late_workers : ℕ → WorkerRegistry → List WorkerRecord
late_workers now r = filter (is_late now r.offline_timeout) (values r.workers)

-- What a check leaves of a worker.
abbrev pub checked_worker : ℕ → ℕ → WorkerRecord → WorkerRecord
checked_worker now timeout w = if is_late now timeout w then switch_off w else w

-- The outcome of a check.
pub record Checked (now : ℕ) (r : WorkerRegistry) : Type 0 where
  pub reported :
      (check_timeouts now r).0 ≡ map (λ (w : WorkerRecord). w.worker_id) (late_workers now r)
  pub changed :
      values (check_timeouts now r).1.workers
      ≡ map (checked_worker now r.offline_timeout) (values r.workers)
  pub kept : keys (check_timeouts now r).1.workers ≡ keys r.workers
  pub settled : (check_timeouts now (check_timeouts now r).1).0 ≡ []
