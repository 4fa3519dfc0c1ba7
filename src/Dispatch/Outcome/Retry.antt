-- ===== src/Dispatch/Outcome/Retry.antt =====
-- The retry budget of a task (packages/dispatcher/stockstat_dispatcher/core.py).
use stock_statistic.Common.{
  ℕ, zero, suc, ◌+◌, ◌-◌, ◌≤◌, ◌<◌, ◌≡◌, refl, sym, ap, ◌∙◌, true, false, Option, some, List, [],
  ◌∷◌, ◌++◌, arith, min, Bool-cases, inl, inr, ltb, ltb→lt, if◌then◌else◌, ◌==◌,
}
use stock_statistic.Common.Lists.{length, All, length-append}
use stock_statistic.Common.Text.{Text}
use stock_statistic.Common.Dict.{get, get-put_self}
use stock_statistic.Protocol.Task.{TaskSpec}
use mathlib.Core.List.{append-nil, append_assoc}
use stock_statistic.Dispatch.Queue.{TaskQueue, enqueue, size, arrived_specs}
use stock_statistic.Dispatch.Queue.Order.{arrived_specs-enqueue}
use stock_statistic.Dispatch.SliceId.{parent_id}
use stock_statistic.Dispatch.State.{
  TaskState, pending, failed, TaskEntry, Dispatcher, record_history,
}
use stock_statistic.Dispatch.Outcome.{ErrorReport, fail_entry, retry_entry, after_failure, on_fail}

-- A number of copies of a specification.
abbrev pub replicate : ℕ → TaskSpec → List TaskSpec
replicate zero s = []
replicate (suc n) s = s ∷ replicate n s

-- A worker's report that a slice failed with a retryable error, at a time.
pub record Failure : Type 0 where
  pub now : ℕ
  pub worker_id : Text
  pub slice_id : Text
  pub error_message : Option Text

abbrev error_of : Failure → ErrorReport
error_of f = record { error_message = f.error_message; retryable = true }

abbrev pub fail : Failure → Dispatcher → Dispatcher
fail f d = on_fail f.now f.worker_id f.slice_id (error_of f) d

unfoldable pub fail_each : List Failure → Dispatcher → Dispatcher
fail_each [] d = d
fail_each (f ∷ fs) d = fail_each fs (fail f d)

-- The tries that are left.
abbrev pub tries : TaskEntry → ℕ
tries t = 3 - t.info.retry_count

-- The state after `m` failures: the last of them is not retried if there are more than tries.
abbrev pub state_after : ℕ → ℕ → TaskState → TaskState
state_after m retried s = if m == 0 then s else if ltb (3 - retried) m then failed else pending

state_again :
    (m retried : ℕ) (s : TaskState)
    → retried < 3
    → state_after m (retried + 1) pending ≡ state_after (suc m) retried s
state_again m retried s h = ground arith

state_finally :
    (m retried : ℕ) (s : TaskState)
    → 3 ≤ retried
    → state_after m retried failed ≡ state_after (suc m) retried s
state_finally m retried s h = ground arith

length-enqueue : (s : TaskSpec) (q : TaskQueue) → size (enqueue s q) ≡ size q + 1
unfolding size enqueue
length-enqueue s q = length-append q.entries _

again_once :
    (specs : List TaskSpec) (m retried : ℕ) (s : TaskSpec) (specs' : List TaskSpec)
    → retried < 3
    → specs' ≡ specs ++ s ∷ []
    → specs' ++ replicate (min m (3 - (retried + 1))) s
      ≡ specs ++ replicate (min (suc m) (3 - retried)) s
again_once specs m retried s specs' h e =
    let more : min (suc m) (3 - retried) ≡ suc (min m (3 - (retried + 1))) = omega (arith, h) in
    rw (e, more) (append_assoc specs (s ∷ []) (replicate (min m (3 - (retried + 1))) s))

again_never :
    (m retried : ℕ) (s : TaskSpec) (specs' specs : List TaskSpec)
    → 3 ≤ retried
    → specs' ≡ specs
    → specs' ++ replicate (min m (3 - retried)) s ≡ specs ++ replicate (min (suc m) (3 - retried)) s
again_never m retried s specs' specs h e =
    let less : min m (3 - retried) ≡ 0 = omega (arith, h) in
    let none_left : min (suc m) (3 - retried) ≡ 0 = omega (arith, h) in rw (e, less, none_left) refl

spent : (t : TaskEntry) → ltb t.info.retry_count 3 ≡ false → 3 ≤ t.info.retry_count
spent t h = ground arith

module _ (task_id : Text) where
  abbrev pub Concerns : Failure → Type 0
  Concerns f = parent_id f.slice_id ≡ task_id

  abbrev failed_entry : Failure → TaskEntry → TaskEntry
  failed_entry f t = fail_entry f.now (error_of f) t

  fail_lem :
      (f : Failure) (t : TaskEntry) (d : Dispatcher)
      → Concerns f
      → get task_id d.tasks ≡ some t
      → fail f d ≡ after_failure f.worker_id task_id (error_of f) (failed_entry f t) d
  unfolding on_fail
  fail_lem f t d c g =
      let there : get (parent_id f.slice_id) d.tasks ≡ some t = rw c g in
      rw (there, on_fail)
        (ap (λ k. after_failure f.worker_id k (error_of f) (failed_entry f t) d) c)

  fail_again :
      (f : Failure) (t : TaskEntry) (d : Dispatcher)
      → Concerns f
      → get task_id d.tasks ≡ some t
      → ltb t.info.retry_count 3 ≡ true
      → (get task_id (fail f d).tasks ≡ some (retry_entry (failed_entry f t)))
        × ((fail f d).queue ≡ enqueue t.spec d.queue)
  unfolding after_failure fail_entry
  fail_again f t d c g may = rw (fail_lem f t d c g, may) (get-put_self task_id _ _, refl)

  fail_finally :
      (f : Failure) (t : TaskEntry) (d : Dispatcher)
      → Concerns f
      → get task_id d.tasks ≡ some t
      → ltb t.info.retry_count 3 ≡ false
      → (get task_id (fail f d).tasks ≡ some (failed_entry f t)) × ((fail f d).queue ≡ d.queue)
  unfolding after_failure fail_entry record_history
  fail_finally f t d c g no_more = rw (fail_lem f t d c g, no_more) (get-put_self task_id _ _, refl)

  -- What a list of retryable failures leads to.
  pub record Retried (fs : List Failure) (t : TaskEntry) (d : Dispatcher) : Type 0 where
    pub entry : TaskEntry
    pub stored : get task_id (fail_each fs d).tasks ≡ some entry
    pub counted : entry.info.retry_count ≡ t.info.retry_count + min (length fs) (tries t)
    pub enqueued : size (fail_each fs d).queue ≡ size d.queue + min (length fs) (tries t)
    pub again :
        arrived_specs (fail_each fs d).queue
        ≡ arrived_specs d.queue ++ replicate (min (length fs) (tries t)) t.spec
    pub state : entry.info.state ≡ state_after (length fs) t.info.retry_count t.info.state

  -- Each retryable failure of a task, of whatever slices, enqueues the whole task again as long as
  -- it was retried less than three times, so that its own specification arrives in the queue once
  -- for each of these failures and nothing else does; every later one leaves it failed.
  pub fail_each-Retried :
      (fs : List Failure) (t : TaskEntry) (d : Dispatcher)
      → get task_id d.tasks ≡ some t
      → All Concerns fs
      → t.info.retry_count ≤ 3
      → Retried fs t d
  unfolding fail_each fail_entry retry_entry
  fail_each-Retried [] t d g c h = record {
    entry = t;
    stored = g;
    counted = omega arith;
    enqueued = omega arith;
    again =
        let none_yet : min 0 (tries t) ≡ 0 = omega arith in
        rw none_yet (sym (append-nil (arrived_specs d.queue)));
    state = refl;
  }
  fail_each-Retried (f ∷ fs) t d g c h = elim (Bool-cases (ltb t.info.retry_count 3)) [
    | inl may ↦
        let (stored, queued) = fail_again f t d c.0 g may in
        let rest =
          fail_each-Retried fs (retry_entry (failed_entry f t)) (fail f d) stored c.1
            (omega (arith, ltb→lt _ _ may)) in
        record {
          entry = rest.entry;
          stored = rest.stored;
          counted = omega (arith, rest.counted, ltb→lt _ _ may);
          enqueued =
              omega (
                arith,
                rest.enqueued,
                ltb→lt _ _ may,
                ap size queued,
                length-enqueue t.spec d.queue,
              );
          again =
              rest.again
              ∙ again_once (arrived_specs d.queue) (length fs) t.info.retry_count t.spec _
                  (ltb→lt _ _ may) (ap arrived_specs queued ∙ arrived_specs-enqueue t.spec d.queue);
          state = rest.state ∙ state_again (length fs) _ _ (ltb→lt _ _ may);
        }
    | inr no_more ↦
        let (stored, queued) = fail_finally f t d c.0 g no_more in
        let rest = fail_each-Retried fs (failed_entry f t) (fail f d) stored c.1 h in
        record {
          entry = rest.entry;
          stored = rest.stored;
          counted = omega (arith, rest.counted, spent t no_more);
          enqueued = omega (arith, rest.enqueued, spent t no_more, ap size queued);
          again =
              rest.again
              ∙ again_never (length fs) t.info.retry_count t.spec _ _ (spent t no_more)
                  (ap arrived_specs queued);
          state = rest.state ∙ state_finally (length fs) _ _ (spent t no_more);
        }
  ]
