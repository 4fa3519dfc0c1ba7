-- ===== src/Service/Finishes.antt =====
-- A task that is submitted to an empty queue is completed by one worker.
use mathlib.Core.Path.{subst}
use stock_statistic.Common.{
  ℕ, zero, suc, ◌+◌, ◌<◌, ◌≡◌, refl, sym, ap, inl, inr, some, List, [], ◌∷◌, ◌++◌, arith,
}
use stock_statistic.Common.Lists.{length, All, length-append}
use stock_statistic.Common.Text.{Text}
use stock_statistic.Common.Dict.{get, get-put_self}
use stock_statistic.Protocol.Task.{TaskSpec}
use stock_statistic.Dispatch.Queue.{Entry, TaskQueue, size, enqueue}
use stock_statistic.Dispatch.Queue.Order.{IsValid}
use stock_statistic.Dispatch.SliceId.{parent_id}
use stock_statistic.Dispatch.Cache.{Bytes}
use stock_statistic.Dispatch.Shard.{shard_task}
use stock_statistic.Dispatch.Shard.Slices.{AreSlices, IsSharded, shard_task-IsSharded}
use stock_statistic.Dispatch.Client.{submit, new_entry, get_result, ok}
use stock_statistic.Dispatch.State.{Outside, completed, TaskEntry, Dispatcher, enqueue_all}
use stock_statistic.Dispatch.Assign.Prefetch.{IsReadable}
use stock_statistic.Dispatch.Assign.Search.{enqueue_all-IsValid}
use stock_statistic.Protocol.Value.{Fields, Value}
use stock_statistic.Compute.Local
use stock_statistic.Compute.Local.{returned}
use stock_statistic.Compute.Worker.{Worker}
use stock_statistic.Service.{rounds}
use stock_statistic.Service.Handed.{IsOurs, Awaits, Progressed}
use stock_statistic.Service.Progress.{IsReady, rounds-completed}

Parents : Text → List TaskSpec → Type 0
Parents task_id ss = All (λ (s : TaskSpec). parent_id s.task_id ≡ task_id) ss

AreSlices-Parents :
    (spec : TaskSpec) (i : ℕ) (ss : List TaskSpec) → AreSlices spec i ss → Parents spec.task_id ss
unfolding Parents
AreSlices-Parents spec i [] h = tt
AreSlices-Parents spec i (s ∷ ss) h = (h.0.parent, AreSlices-Parents spec (i + 1) ss h.1)

IsSharded-Parents :
    (spec : TaskSpec) (ss : List TaskSpec)
    → parent_id spec.task_id ≡ spec.task_id
    → IsSharded spec ss
    → Parents spec.task_id ss
unfolding Parents
IsSharded-Parents spec ss p (inl alone) = subst (Parents spec.task_id) (sym alone) (p, tt)
IsSharded-Parents spec ss p (inr slices) = AreSlices-Parents spec 0 ss slices

-- The specifications are of slices of the task whose data can be read.
abbrev AllOurs : Outside → Text → List TaskSpec → Type 0
AllOurs out task_id ss = All (IsOurs out task_id) ss

All-IsOurs :
    (out : Outside) (task_id : Text) (ss : List TaskSpec)
    → Parents task_id ss
    → All (IsReadable out) ss
    → AllOurs out task_id ss
unfolding Parents
All-IsOurs out task_id [] p r = tt
All-IsOurs out task_id (s ∷ ss) p r = ((p.0, r.0), All-IsOurs out task_id ss p.1 r.1)

abbrev AllOf : Outside → Text → List Entry → Type 0
AllOf out task_id es = All (λ (e : Entry). IsOurs out task_id e.spec) es

AllOf-snoc :
    (out : Outside) (task_id : Text) (es : List Entry) (e : Entry)
    → AllOf out task_id es
    → IsOurs out task_id e.spec
    → AllOf out task_id (es ++ e ∷ [])
AllOf-snoc out task_id [] e h p = (p, tt)
AllOf-snoc out task_id (f ∷ es) e h p = (h.0, AllOf-snoc out task_id es e h.1 p)

AllOf-enqueue_all :
    (out : Outside) (task_id : Text) (ss : List TaskSpec) (q : TaskQueue)
    → AllOurs out task_id ss
    → AllOf out task_id q.entries
    → AllOf out task_id (enqueue_all ss q).entries
unfolding enqueue_all enqueue
AllOf-enqueue_all out task_id [] q p h = h
AllOf-enqueue_all out task_id (s ∷ ss) q p h =
    AllOf-enqueue_all out task_id ss (enqueue s q) p.1 (AllOf-snoc out task_id q.entries _ h p.0)

size-enqueue_all :
    (ss : List TaskSpec) (q : TaskQueue) → size (enqueue_all ss q) ≡ length ss + size q
unfolding enqueue_all enqueue size
size-enqueue_all [] q = omega arith
size-enqueue_all (s ∷ ss) q =
    omega (arith, size-enqueue_all ss (enqueue s q), length-append q.entries (_ ∷ []))

submit-Awaits :
    (out : Outside) (now : ℕ) (spec : TaskSpec) (d : Dispatcher)
    → d.queue.entries ≡ []
    → IsValid d.queue
    → parent_id spec.task_id ≡ spec.task_id
    → All (IsReadable out) (shard_task out.set_order spec)
    → Awaits out spec.task_id (submit out now spec d).0.n_slices (submit out now spec d).1
unfolding submit
submit-Awaits out now spec d e v p readable =
    let slices = shard_task out.set_order spec in
    let nothing_waits : size d.queue ≡ 0 = unfold size in ap length e in
    record {
      valid = enqueue_all-IsValid slices d.queue v;
      count = omega (arith, size-enqueue_all slices d.queue, nothing_waits);
      slices =
          AllOf-enqueue_all out spec.task_id slices d.queue
            (All-IsOurs out spec.task_id slices
              (IsSharded-Parents spec slices p (shard_task-IsSharded out.set_order spec)) readable)
            (subst (AllOf out spec.task_id) (sym e) tt);
      entry = new_entry now spec slices;
      stored = get-put_self spec.task_id _ d.tasks;
      missing = unfold new_entry in omega arith;
    }

get_result_completed :
    (task_id : Text) (d : Dispatcher) (t : TaskEntry)
    → get task_id d.tasks ≡ some t
    → t.info.state ≡ completed
    → get_result task_id d ≡ ok t.merged_result_bytes
unfolding get_result
get_result_completed task_id d t g c = rw (g, get_result, c) refl

finish_awaited :
    (out : Outside) (refusal : Fields → Text) (handler : TaskSpec → Value → Local.Outcome)
    (dates : (t : ℕ) → out.runtime.fromisoformat (out.runtime.isoformat t) ≡ some t)
    (returns : (s : TaskSpec) (v : Value) → (u : Value) × (handler s v ≡ returned u))
    (times : List ℕ) (worker_id task_id : Text) (n : ℕ) (w : Worker) (d : Dispatcher)
    → 0 < n
    → length times ≡ n
    → IsReady worker_id w
    → Awaits out task_id n d
    → (bytes : Bytes) × (get_result task_id (rounds out refusal handler times w d).1 ≡ ok bytes)
unfolding Progressed
finish_awaited out refusal handler dates returns times worker_id task_id zero w d pos l h a =
    absurd (omega (arith, pos))
finish_awaited out refusal handler dates returns times worker_id task_id (suc m) w d pos l h a =
    let (t, stored, done) =
      rounds-completed out refusal handler dates returns times worker_id task_id m w d l h a in
    (t.merged_result_bytes, get_result_completed task_id _ t stored done)

-- Where the dates of specifications read back, the handlers return and the data of each slice can be
-- read: a task whose own id is the parent of itself, submitted while the queue is empty and divided into at least one slice, is
-- finished by one worker that has a place, holds no futures and can run "custom" tasks, in as many
-- rounds as there are slices; then its result can be fetched.
pub rounds-submit :
    (out : Outside) (refusal : Fields → Text) (handler : TaskSpec → Value → Local.Outcome) (now : ℕ)
    (spec : TaskSpec) (d : Dispatcher) (worker_id : Text) (w : Worker) (times : List ℕ)
    → ((t : ℕ) → out.runtime.fromisoformat (out.runtime.isoformat t) ≡ some t)
    → ((s : TaskSpec) (v : Value) → (u : Value) × (handler s v ≡ returned u))
    → IsReady worker_id w
    → d.queue.entries ≡ []
    → IsValid d.queue
    → parent_id spec.task_id ≡ spec.task_id
    → All (IsReadable out) (shard_task out.set_order spec)
    → 0 < (submit out now spec d).0.n_slices
    → length times ≡ (submit out now spec d).0.n_slices
    → (bytes : Bytes) × (get_result spec.task_id
          (rounds out refusal handler times w (submit out now spec d).1).1
        ≡ ok bytes)
rounds-submit out refusal handler now spec d worker_id w times dates returns h e v p readable
      some_slices l =
    finish_awaited out refusal handler dates returns times worker_id spec.task_id _ w _ some_slices
      l h (submit-Awaits out now spec d e v p readable)
