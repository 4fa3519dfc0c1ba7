-- ===== src/Dispatch/Watch.antt =====
-- The background check: timed-out workers and the reassignment of their slices
-- (packages/dispatcher/stockstat_dispatcher/core.py).
pub mod Release
use stock_statistic.Common.{ℕ, Bool, Option, none, some, List, [], ◌∷◌, if◌then◌else◌}
use stock_statistic.Common.Text.{Text, text_eq}
use stock_statistic.Common.Dict.{Dict, get}
use stock_statistic.Protocol.Task.{TaskSpec}
use stock_statistic.Dispatch.Queue.{TaskQueue, enqueue}
use stock_statistic.Dispatch.Workers.{check_timeouts}
use stock_statistic.Dispatch.State.{TaskEntry, Dispatcher}

abbrev pub enqueue_known : Option TaskSpec → TaskQueue → TaskQueue
enqueue_known none q = q
enqueue_known (some s) q = enqueue s q

-- The queue after one assignment. A slice that is not among the task's slices is only taken off.
unfoldable pub release_one : Text → Dict TaskSpec → Text × Text → TaskQueue → TaskQueue
release_one worker_id slices (slice_id, wid) q =
    if text_eq wid worker_id then enqueue_known (get slice_id slices) q else q

-- The assignments that are left, and the queue with the slices of the worker.
unfoldable pub release_slices : Text → Dict TaskSpec → Dict Text → TaskQueue → Dict Text × TaskQueue
unfolding release_one
release_slices worker_id slices [] q = ([], q)
release_slices worker_id slices ((slice_id, wid) ∷ rest) q =
    let (left, q') =
      release_slices worker_id slices rest (release_one worker_id slices (slice_id, wid) q) in
    (if text_eq wid worker_id then left else (slice_id, wid) ∷ left, q')

-- The loop over the tasks.
unfoldable pub release_tasks : Text → Dict TaskEntry → TaskQueue → Dict TaskEntry × TaskQueue
unfolding release_slices
release_tasks worker_id [] q = ([], q)
release_tasks worker_id ((k, t) ∷ rest) q =
    let (left, q') = release_slices worker_id t.slices_by_id t.assigned_slices q in
    let (rest', q'') = release_tasks worker_id rest q' in
    ((k, record t { assigned_slices = left }) ∷ rest', q'')

unfoldable pub reassign_worker_tasks : Text → Dispatcher → Dispatcher
unfolding release_tasks
reassign_worker_tasks worker_id d =
    let (tasks, q) = release_tasks worker_id d.tasks d.queue in
    record d { tasks = tasks; queue = q }

unfoldable pub reassign_all : List Text → Dispatcher → Dispatcher
unfolding reassign_worker_tasks
reassign_all [] d = d
reassign_all (w ∷ ws) d = reassign_all ws (reassign_worker_tasks w d)

-- One round of `_check_loop`.
unfoldable pub check_round : ℕ → Dispatcher → Dispatcher
unfolding reassign_all
check_round now d =
    let (timed_out, workers) = check_timeouts now d.workers in
    reassign_all timed_out (record d { workers = workers })
