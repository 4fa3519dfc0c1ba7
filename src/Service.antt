-- ===== src/Service.antt =====
-- The dispatcher and a worker together: rounds of the worker's loop
-- (packages/compute/stockstat_compute/worker.py) against the handlers of
-- packages/dispatcher/stockstat_dispatcher/core.py.
pub mod Handed
pub mod Given
pub mod Progress
pub mod Finishes
use stock_statistic.Common.{ℕ, false, Option, none, some, List, [], ◌∷◌}
use stock_statistic.Common.Text.{Text}
use stock_statistic.Protocol.Value.{Fields, Value}
use stock_statistic.Protocol.Task.{TaskSpec}
use stock_statistic.Dispatch.State.{Outside, Dispatcher}
use stock_statistic.Dispatch.Assign.{
  AssignResult, nothing, assigned, raised, Assignment, assign_task,
}
use stock_statistic.Dispatch.Run.{Request, step}
use stock_statistic.Compute.Local.{Outcome}
use stock_statistic.Compute.Worker.{
  Worker, poll, slice_of, store_future, run_assignment, execute_end,
}

-- The posts in the order in which they are sent, handled at one time.
abbrev pub deliver : Outside → ℕ → List Request → Dispatcher → Dispatcher
deliver out now [] d = d
deliver out now (r ∷ rs) d = deliver out now rs (step out now r d)

module _ (out : Outside) (refusal : Fields → Text) (handler : TaskSpec → Value → Outcome) where
  -- The worker runs what it was assigned to its end, after it has stored the future.
  unfoldable pub work_off : ℕ → AssignResult × Dispatcher → Worker → Worker × Dispatcher
  work_off now (assigned a, d) w =
      let (posts, w') =
        execute_end out (slice_of a) (run_assignment out refusal handler a) none false
          (store_future (slice_of a) w) in
      (w', deliver out now posts d)
  work_off now (_, d) w = (w, d)

  -- A poll that finds a place, or does not ask.
  unfoldable pub ask : ℕ → Option (Text × List Text) → Worker → Dispatcher → Worker × Dispatcher
  unfolding work_off
  ask now none w d = (w, d)
  ask now (some (worker_id, capabilities)) w d =
      work_off now (assign_task out now worker_id capabilities d) w

  unfoldable pub round : ℕ → Worker → Dispatcher → Worker × Dispatcher
  unfolding ask
  round now w d = ask now (poll w) w d

  unfoldable pub rounds : List ℕ → Worker → Dispatcher → Worker × Dispatcher
  unfolding round
  rounds [] w d = (w, d)
  rounds (now ∷ times) w d = let (w', d') = round now w d in rounds times w' d'
