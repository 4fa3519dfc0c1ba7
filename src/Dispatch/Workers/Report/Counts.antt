-- ===== src/Dispatch/Workers/Report/Counts.antt =====
-- What the statistics of the registry promise
-- (packages/dispatcher/stockstat_dispatcher/workers.py).
use stock_statistic.Common.{◌+◌, ◌≤◌, ◌≡◌, Bool, true, false, List, [], ◌∷◌, arith}
use stock_statistic.Common.Lists.{length, count_if}
use stock_statistic.Common.Sum.{sum_by}
use stock_statistic.Common.Dict.{values}
use stock_statistic.Dispatch.Workers.{WorkerStatus, other, WorkerRecord, WorkerRegistry, is_busy}
use stock_statistic.Dispatch.Workers.Report.{stats, is_online, is_offline, free_places}

-- Workers of any further status.
abbrev pub is_other : WorkerStatus → Bool
is_other (other _) = true
is_other _ = false

count_states :
    (ws : List WorkerRecord)
    → length ws
      ≡ count_if (λ w. is_online w.status) ws
        + count_if (λ w. is_busy w.status) ws
        + count_if (λ w. is_offline w.status) ws
        + count_if (λ w. is_other w.status) ws
count_states [] = omega arith
count_states (w ∷ ws) = ground (arith, count_states ws)

free_bound : (ws : List WorkerRecord) → sum_by free_places ws ≤ sum_by (λ w. w.concurrency) ws
free_bound [] = omega arith
free_bound (w ∷ ws) = ground (arith, free_bound ws)

-- The counted workers are those online, busy, offline and of any further status, and the free
-- places are never more than the places.
pub stats_account :
    (r : WorkerRegistry)
    → ((stats r).total_workers
        ≡ (stats r).online_workers
          + (stats r).busy_workers
          + (stats r).offline_workers
          + count_if (λ w. is_other w.status) (values r.workers))
      × ((stats r).available_concurrency ≤ (stats r).total_concurrency)
unfolding stats
stats_account r = (count_states (values r.workers), free_bound (values r.workers))
