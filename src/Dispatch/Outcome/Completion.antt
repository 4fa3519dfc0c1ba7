-- ===== src/Dispatch/Outcome/Completion.antt =====
-- When a task completes (packages/dispatcher/stockstat_dispatcher/core.py).
use stock_statistic.Common.{
  ℕ, suc, ◌+◌, ◌<◌, ◌≡◌, refl, ap, true, false, some, List, [], ◌∷◌, arith,
}
use stock_statistic.Common.Lists.{length, All}
use stock_statistic.Common.Text.{Text}
use stock_statistic.Common.Dict.{Dict, get, put, values, get-put_self}
use stock_statistic.Dispatch.SliceId.{parent_id}
use stock_statistic.Dispatch.Cache.{Bytes}
use stock_statistic.Dispatch.State.{
  Outside, completed, TaskEntry, Dispatcher, record_history, merge_results, merge_partials,
}
use stock_statistic.Dispatch.Outcome.{add_result, finish, is_done, after_report, on_complete}

-- A worker's report that a slice is complete, at a time.
pub record Report : Type 0 where
  pub now : ℕ
  pub worker_id : Text
  pub slice_id : Text
  pub result_b64 : Text

abbrev pub complete : Outside → Report → Dispatcher → Dispatcher
complete out r = on_complete out r.now r.worker_id r.slice_id r.result_b64

unfoldable pub complete_each : Outside → List Report → Dispatcher → Dispatcher
complete_each out [] d = d
complete_each out (r ∷ rs) d = complete_each out rs (complete out r d)

-- The partial results with those of the reports.
unfoldable pub add_partials : Outside → List Report → Dict Bytes → Dict Bytes
add_partials out [] d = d
add_partials out (r ∷ rs) d = add_partials out rs (put r.slice_id (out.b64decode r.result_b64) d)

module _ (out : Outside) (task_id : Text) where
  abbrev pub Concerns : Report → Type 0
  Concerns r = parent_id r.slice_id ≡ task_id

  abbrev pub after_one : Report → TaskEntry → TaskEntry
  after_one r t = add_result r.slice_id (out.b64decode r.result_b64) t

  pub complete_lem :
      (r : Report) (t : TaskEntry) (d : Dispatcher)
      → Concerns r
      → get task_id d.tasks ≡ some t
      → complete out r d ≡ after_report out r.now r.worker_id task_id (after_one r t) d
  unfolding on_complete
  complete_lem r t d c g =
      let there : get (parent_id r.slice_id) d.tasks ≡ some t = rw c g in
      rw (there, on_complete) (ap (λ k. after_report out r.now r.worker_id k (after_one r t) d) c)

  pub complete_more :
      (r : Report) (t : TaskEntry) (d : Dispatcher)
      → Concerns r
      → get task_id d.tasks ≡ some t
      → is_done (after_one r t) ≡ false
      → get task_id (complete out r d).tasks ≡ some (after_one r t)
  unfolding after_report
  complete_more r t d c g more = rw (complete_lem r t d c g, more) (get-put_self task_id _ d.tasks)

  pub complete_last :
      (r : Report) (t : TaskEntry) (d : Dispatcher)
      → Concerns r
      → get task_id d.tasks ≡ some t
      → is_done (after_one r t) ≡ true
      → get task_id (complete out r d).tasks ≡ some (finish out r.now (after_one r t))
  unfolding after_report record_history
  complete_last r t d c g done = rw (complete_lem r t d c g, done) (get-put_self task_id _ _)

  -- What a list of reports leads to: the task is completed, all of its slices are counted, and its
  -- result is the merge of the partial results with those of the reports.
  pub record Completed (rs : List Report) (t : TaskEntry) (d : Dispatcher) : Type 0 where
    pub entry : TaskEntry
    pub stored : get task_id (complete_each out rs d).tasks ≡ some entry
    pub done : entry.info.state ≡ completed
    pub counted : entry.info.completed_slices ≡ t.info.n_slices
    pub merged :
        entry.merged_result_bytes
        ≡ merge_partials out t.spec.compute_spec.task_type
            (values (add_partials out rs t.partial_results))

  pub last_counted :
      (r : Report) (t : TaskEntry)
      → t.info.completed_slices + 1 ≡ t.info.n_slices
      → is_done (after_one r t) ≡ true
  unfolding add_result
  last_counted r t n = ground arith

  pub more_left :
      (r : Report) (t : TaskEntry) (m : ℕ)
      → t.info.completed_slices + suc (suc m) ≡ t.info.n_slices
      → is_done (after_one r t) ≡ false
  unfolding add_result
  more_left r t m n = ground arith

  -- From an entry that waits for as many results as there are reports of its slices, the reports
  -- complete the task, whatever its state was. They are counted, not compared: a slice that is
  -- reported twice counts twice.
  pub complete_each-Completed :
      (rs : List Report) (t : TaskEntry) (d : Dispatcher)
      → get task_id d.tasks ≡ some t
      → All Concerns rs
      → 0 < length rs
      → t.info.completed_slices + length rs ≡ t.info.n_slices
      → Completed rs t d
  unfolding complete_each add_partials add_result
  complete_each-Completed [] t d g c h n = absurd (omega arith)
  complete_each-Completed (r ∷ []) t d g c h n =
      let stored : get task_id (complete out r d).tasks ≡ some (finish out r.now (after_one r t)) =
        complete_last r t d c.0 g (last_counted r t n) in
      record {
        entry = finish out r.now (after_one r t);
        stored = stored;
        done = unfold finish in refl;
        counted = unfold finish in n;
        merged = unfold finish merge_results in refl;
      }
  complete_each-Completed (r ∷ s ∷ rs) t d g c h n =
      let stored : get task_id (complete out r d).tasks ≡ some (after_one r t) =
        complete_more r t d c.0 g (more_left r t (length rs) n) in
      let rest =
        complete_each-Completed (s ∷ rs) (after_one r t) (complete out r d) stored c.1 (omega arith)
          (omega (arith, n)) in
      record {
        entry = rest.entry;
        stored = rest.stored;
        done = rest.done;
        counted = rest.counted;
        merged = rest.merged;
      }

  -- A report after which results are still missing adds one to the count of its task, and changes
  -- neither the state of the task nor the history.
  pub complete_early :
      (r : Report) (t : TaskEntry) (d : Dispatcher)
      → Concerns r
      → get task_id d.tasks ≡ some t
      → t.info.completed_slices + 1 < t.info.n_slices
      → (entry : TaskEntry) × (get task_id (complete out r d).tasks ≡ some entry)
        × (entry.info.state ≡ t.info.state)
        × (entry.info.completed_slices ≡ t.info.completed_slices + 1)
        × ((complete out r d).task_history ≡ d.task_history)
  unfolding add_result after_report
  complete_early r t d c g h =
      let more : is_done (after_one r t) ≡ false = ground arith in
      (
        after_one r t,
        complete_more r t d c g more,
        refl,
        refl,
        rw (complete_lem r t d c g, more) refl,
      )
