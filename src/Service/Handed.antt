-- ===== src/Service/Handed.antt =====
-- What the dispatcher's queue gives a worker that can run any task, and the state of a task whose
-- slices wait there (packages/dispatcher/stockstat_dispatcher/core.py).
use mathlib.Core.List.{Permᴰ}
use mathlib.Core.Path.{subst}
use stock_statistic.Common.{
  ℕ, zero, suc, ◌+◌, ◌<◌, ◌≡◌, refl, ap, true, Option, none, some, List, [], ◌∷◌, ◌++◌, arith,
}
use stock_statistic.Common.Lists.{length, All, perm_length, length-append}
use stock_statistic.Common.Text.{Text, codes, text_mem}
use stock_statistic.Common.Dict.{get}
use stock_statistic.Protocol.Task.{TaskSpec}
use stock_statistic.Dispatch.Queue.{Entry, TaskQueue, size}
use stock_statistic.Dispatch.Queue.Order.{IsValid}
use stock_statistic.Dispatch.Queue.Drain.{pop-none}
use stock_statistic.Dispatch.SliceId.{parent_id}
use stock_statistic.Dispatch.State.{Outside, completed, TaskEntry, Dispatcher}
use stock_statistic.Dispatch.Assign.{can_run}
use stock_statistic.Dispatch.Assign.Prefetch.{IsReadable}
use stock_statistic.Dispatch.Assign.Search.{Outcome, CannotRun}

-- A worker that says it can run "custom" tasks can run any.
can_run_any :
    (capabilities : List Text) (spec : TaskSpec)
    → text_mem (codes "custom") capabilities ≡ true
    → can_run capabilities spec ≡ true
unfolding can_run
can_run_any capabilities spec h = ground (arith, h)

passed_none :
    (capabilities : List Text) (es : List Entry)
    → text_mem (codes "custom") capabilities ≡ true
    → All (CannotRun capabilities) es
    → es ≡ []
passed_none capabilities [] h k = refl
passed_none capabilities (e ∷ es) h k = absurd (cc (k.0, can_run_any capabilities e.spec h))

-- The first entry of the queue goes to such a worker.
pub record Handed (q : TaskQueue) (r : Option TaskSpec × TaskQueue) : Type 0 where
  pub entry : Entry
  pub given : r.0 ≡ some entry.spec
  pub same : Permᴰ q.entries (entry ∷ r.1.entries)
  pub valid : IsValid r.1

pub Outcome-Handed :
    (capabilities : List Text) (q : TaskQueue) (r : Option TaskSpec × TaskQueue)
    → text_mem (codes "custom") capabilities ≡ true
    → 0 < size q
    → Outcome capabilities [] q r
    → Handed q r
unfolding size
Outcome-Handed capabilities q (none, left) h k o = absurd (
    omega (
      arith,
      k,
      perm_length o.all,
      ap length (passed_none capabilities o.passed h o.unable),
      ap length (pop-none o.empty o.no_entry),
      length-append o.passed o.empty.entries,
    ))
Outcome-Handed capabilities q (some spec, left) h k o = record {
  entry = o.entry;
  given = ap some o.given;
  same =
      subst (λ es. Permᴰ q.entries (es ++ o.entry ∷ left.entries))
        (passed_none capabilities o.passed h o.unable) o.lost;
  valid = o.valid;
}

-- A slice of the task whose data can be read.
abbrev pub IsOurs : Outside → Text → TaskSpec → Type 0
IsOurs out task_id s = (parent_id s.task_id ≡ task_id) × IsReadable out s

-- `m` slices of the task are in the queue, nothing else is, and their results are awaited.
pub record Awaits (out : Outside) (task_id : Text) (m : ℕ) (d : Dispatcher) : Type 0 where
  pub valid : IsValid d.queue
  pub count : size d.queue ≡ m
  pub slices : All (λ (e : Entry). IsOurs out task_id e.spec) d.queue.entries
  pub entry : TaskEntry
  pub stored : get task_id d.tasks ≡ some entry
  pub missing : entry.info.completed_slices + m ≡ entry.info.n_slices

-- The same, where one slice more is with the worker.
pub record Lacks (out : Outside) (task_id : Text) (m : ℕ) (d : Dispatcher) : Type 0 where
  pub valid : IsValid d.queue
  pub count : size d.queue ≡ m
  pub slices : All (λ (e : Entry). IsOurs out task_id e.spec) d.queue.entries
  pub entry : TaskEntry
  pub stored : get task_id d.tasks ≡ some entry
  pub missing : entry.info.completed_slices + suc m ≡ entry.info.n_slices

-- The last slice's result completes the task.
unfoldable pub Progressed : Outside → Text → ℕ → Dispatcher → Type 0
Progressed out task_id zero d =
    (t : TaskEntry) × (get task_id d.tasks ≡ some t) × (t.info.state ≡ completed)
Progressed out task_id (suc m) d = Awaits out task_id (suc m) d
