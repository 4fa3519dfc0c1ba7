-- ===== src/Service/Given.antt =====
-- What the dispatcher gives a worker and what a report does, for a task whose slices wait
-- (packages/dispatcher/stockstat_dispatcher/core.py).
use mathlib.Core.Path.{subst}
use stock_statistic.Common.{
  ℕ, zero, suc, ◌≡◌, refl, sym, ap, ◌∙◌, inl, inr, true, Option, none, some, List, arith,
  Bool-cases, Option-cases,
}
use stock_statistic.Common.Lists.{All, perm_length, perm_All}
use stock_statistic.Common.Text.{Text, codes, text_mem}
use stock_statistic.Common.Dict.{get, modify, get-modify_self}
use stock_statistic.Protocol.Task.{TaskSpec}
use stock_statistic.Dispatch.Queue.{Entry, TaskQueue, size}
use stock_statistic.Dispatch.Queue.Order.{IsValid}
use stock_statistic.Dispatch.SliceId.{parent_id}
use stock_statistic.Dispatch.State.{Outside, TaskEntry, Dispatcher}
use stock_statistic.Dispatch.Assign.{assign_entry}
use stock_statistic.Dispatch.Assign.Prefetch.{
  Sends, Prepared, payload-IsReadable, prepare_assignment_sends,
}
use stock_statistic.Dispatch.Cache.{Bytes}
use stock_statistic.Protocol.CacheKey.{cache_key}
use mathlib.Core.Option
use mathlib.Core.Option.{some-injective}
use stock_statistic.Dispatch.Assign.Search.{find_task-Outcome}
use stock_statistic.Dispatch.Assign.{
  Assignment, AssignResult, assigned, assign_task, prepare_assignment, hand_out,
}
use stock_statistic.Dispatch.Outcome.{is_done, on_complete, after_report, add_result, finish}
use stock_statistic.Dispatch.Outcome.Completion.{
  Report, complete_more, complete_last, last_counted, more_left,
}
use stock_statistic.Dispatch.State.{record_history}
use stock_statistic.Protocol.Task.{to_dict}
use stock_statistic.Service.Handed.{Handed, Outcome-Handed, IsOurs, Awaits, Lacks, Progressed}

module _ (out : Outside) where
  queue-after_report :
      (now : ℕ) (worker_id parent : Text) (t : TaskEntry) (d : Dispatcher)
      → (after_report out now worker_id parent t d).queue ≡ d.queue
  unfolding after_report record_history
  queue-after_report now worker_id parent t d = elim (Bool-cases (is_done t)) [
    | inl last ↦ rw last refl
    | inr more ↦ rw more refl
  ]

  queue-on_complete :
      (now : ℕ) (worker_id slice_id result : Text) (d : Dispatcher)
      → (on_complete out now worker_id slice_id result d).queue ≡ d.queue
  unfolding on_complete
  queue-on_complete now worker_id slice_id result d =
      elim (Option-cases (get (parent_id slice_id) d.tasks)) [
        | inl unknown ↦ rw (unknown, on_complete) refl
        | inr (t, known) ↦
            rw (known, on_complete) (queue-after_report now worker_id (parent_id slice_id) _ d)
      ]

  pub on_complete-Progressed :
      (now : ℕ) (worker_id slice_id result task_id : Text) (m : ℕ) (d : Dispatcher)
      → parent_id slice_id ≡ task_id
      → Lacks out task_id m d
      → Progressed out task_id m (on_complete out now worker_id slice_id result d)
  unfolding Progressed
  on_complete-Progressed now worker_id slice_id result task_id zero d p h =
      let r : Report = record {
        now = now;
        worker_id = worker_id;
        slice_id = slice_id;
        result_b64 = result;
      } in
      (
        finish out now (add_result slice_id (out.b64decode result) h.entry),
        complete_last out task_id r h.entry d p h.stored
            (last_counted out task_id r h.entry h.missing),
        unfold finish in refl,
      )
  on_complete-Progressed now worker_id slice_id result task_id (suc m) d p h =
      let r : Report = record {
        now = now;
        worker_id = worker_id;
        slice_id = slice_id;
        result_b64 = result;
      } in
      let same = sym (queue-on_complete now worker_id slice_id result d) in
      record {
        valid = subst IsValid same h.valid;
        count = ap size (sym same) ∙ h.count;
        slices =
            subst (λ (q : TaskQueue). All (λ (e : Entry). IsOurs out task_id e.spec) q.entries) same
              h.slices;
        entry = add_result slice_id (out.b64decode result) h.entry;
        stored =
            complete_more out task_id r h.entry d p h.stored
              (more_left out task_id r h.entry m h.missing);
        missing = unfold add_result in omega (arith, h.missing);
      }

  -- What `assign_task` gives such a worker: the first slice of the queue.
  pub record Given (worker_id task_id : Text) (m : ℕ) (r : AssignResult × Dispatcher) : Type 0 where
    pub assignment : Assignment
    pub spec : TaskSpec
    pub result : r.0 ≡ assigned assignment
    pub carried : assignment.task_spec ≡ to_dict out.runtime spec
    pub parent : parent_id spec.task_id ≡ task_id
    pub left : Lacks out task_id m r.1

  -- The first slice of the queue, sent.
  Sends-Given :
      (now : ℕ) (worker_id task_id : Text) (m : ℕ) (d : Dispatcher) (s : TaskSpec)
      (left : TaskQueue) (bytes : Bytes) (r : AssignResult × Dispatcher)
      → Awaits out task_id (suc m) d
      → IsValid left
      → size left ≡ m
      → All (λ (e : Entry). IsOurs out task_id e.spec) left.entries
      → parent_id s.task_id ≡ task_id
      → Sends out now s worker_id (record d { queue = left }) bytes r
      → Given worker_id task_id m r
  Sends-Given now worker_id task_id m d s left bytes r h valid count others parent sends =
      let same = sym sends.queue in
      record {
        assignment = _;
        spec = sends.sent;
        result = sends.result;
        carried = refl;
        parent = ap (λ (x : TaskSpec). parent_id x.task_id) (sends.stripped.rest) ∙ parent;
        left = record {
          valid = subst IsValid same valid;
          count = ap size sends.queue ∙ count;
          slices =
              subst (λ (q : TaskQueue). All (λ (e : Entry). IsOurs out task_id e.spec) q.entries)
                same others;
          entry = assign_entry now s.task_id worker_id h.entry;
          stored =
              ap (get task_id) sends.tasks
              ∙ ap
                  (λ (x : Text).
                    get task_id (modify x (assign_entry now s.task_id worker_id) d.tasks))
                  parent
              ∙ get-modify_self task_id _ d.tasks
              ∙ ap (Option.map (assign_entry now s.task_id worker_id)) h.stored;
          missing = unfold assign_entry in omega (arith, h.missing);
        };
      }

  hand_out-Given :
      (now : ℕ) (worker_id task_id : Text) (m : ℕ) (d : Dispatcher)
      (r : Option TaskSpec × TaskQueue)
      → Awaits out task_id (suc m) d
      → Handed d.queue r
      → Given worker_id task_id m (hand_out out now worker_id d r)
  hand_out-Given now worker_id task_id m d (none, left) h k = absurd (cc k.given)
  hand_out-Given now worker_id task_id m d (some s, left) h k =
      let found : s ≡ k.entry.spec = some-injective _ _ k.given in
      let (first, others) = perm_All (λ (e : Entry). IsOurs out task_id e.spec) k.same h.slices in
      let ours : IsOurs out task_id s = subst (IsOurs out task_id) (sym found) first in
      let d' : Dispatcher = record d { queue = left } in
      let (bytes, some_bytes) =
        payload-IsReadable out s (get (cache_key out.digest s.data_spec) d.cache.entries) ours.1 in
      let sends : Sends out now s worker_id d' bytes (prepare_assignment out now s worker_id d') =
        subst
          (λ (x : Option Bytes).
            Prepared out now s worker_id d' x (prepare_assignment out now s worker_id d'))
          some_bytes (prepare_assignment_sends out now s worker_id d') in
      Sends-Given now worker_id task_id m d s left bytes _ h k.valid
        (unfold size in omega (arith, h.count, perm_length k.same)) others ours.0 sends

  pub assign_task-Given :
      (now : ℕ) (worker_id task_id : Text) (capabilities : List Text) (m : ℕ) (d : Dispatcher)
      → text_mem (codes "custom") capabilities ≡ true
      → Awaits out task_id (suc m) d
      → Given worker_id task_id m (assign_task out now worker_id capabilities d)
  unfolding assign_task
  assign_task-Given now worker_id task_id capabilities m d any h =
      hand_out-Given now worker_id task_id m d _ h (
        Outcome-Handed capabilities d.queue _ any (omega (arith, h.count))
          (find_task-Outcome capabilities d.queue h.valid))
