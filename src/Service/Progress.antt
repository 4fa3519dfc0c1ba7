-- ===== src/Service/Progress.antt =====
-- A round of a worker brings a task nearer to its end.
use stock_statistic.Common.{ℕ, zero, suc, ◌<◌, ◌≡◌, refl, ap, ◌∙◌, true, some, List, [], ◌∷◌, arith}
use stock_statistic.Common.Lists.{length}
use stock_statistic.Common.Text.{Text, codes, text_mem}
use stock_statistic.Common.Dict.{Dict, put, erase}
use stock_statistic.Protocol.Task.{TaskSpec}
use stock_statistic.Dispatch.SliceId.{parent_id}
use stock_statistic.Dispatch.State.{Outside, Dispatcher}
use stock_statistic.Dispatch.Run.{step}
use stock_statistic.Dispatch.Assign.{
  Assignment, AssignResult, nothing, assigned, data_failed, raised,
}
use stock_statistic.Protocol.Value.{Fields, Value, null, field_or}
use stock_statistic.Protocol.Task.{to_dict}
use stock_statistic.Protocol.Decode.{from_dict}
use stock_statistic.Protocol.RoundTrip.{sent_compute, from_dict-to_dict}
use stock_statistic.Common.Text.{text_eq, text_eq_refl}
use stock_statistic.Compute.Local
use stock_statistic.Compute.Local.{returned}
use stock_statistic.Compute.Worker.{
  Worker, poll, known_id, run_assignment, slice_of, store_future, execute_end, send_complete,
  Future,
}
use stock_statistic.Service.{round, rounds, work_off, ask}
use stock_statistic.Service.Handed.{Awaits, Progressed}
use stock_statistic.Service.Given.{Given, on_complete-Progressed, assign_task-Given}

-- A worker that has a place and can run any task.
pub record IsReady (worker_id : Text) (w : Worker) : Type 0 where
  pub named : known_id w.worker_id ≡ some worker_id
  pub free : w.active_futures ≡ []
  pub place : 0 < w.concurrency
  pub any : text_mem (codes "custom") w.capabilities ≡ true

IsReady-poll :
    (worker_id : Text) (w : Worker)
    → IsReady worker_id w
    → poll w ≡ some (worker_id, w.capabilities)
unfolding poll
IsReady-poll worker_id w h = ground (arith, h.named, ap length h.free, h.place)

erase-put_nil {ℓ} : {V : Type ℓ} (k : Text) (v : V) → erase k (put k v []) ≡ []
unfolding erase put
erase-put_nil k v = rw (text_eq_refl k) refl

module _ (out : Outside) (refusal : Fields → Text) (handler : TaskSpec → Value → Local.Outcome)
    (dates : (t : ℕ) → out.runtime.fromisoformat (out.runtime.isoformat t) ≡ some t)
    (returns : (spec : TaskSpec) (v : Value) → (u : Value) × (handler spec v ≡ returned u)) where
  run_returns :
      (a : Assignment) (spec : TaskSpec)
      → a.task_spec ≡ to_dict out.runtime spec
      → (u : Value) × (run_assignment out refusal handler a ≡ returned u)
  unfolding run_assignment
  run_returns a spec h =
      let received =
        ap (from_dict out.runtime) h ∙ from_dict-to_dict out.runtime spec (dates spec.created_at) in
      let (u, e) =
        returns (record spec { compute_spec = sent_compute spec.compute_spec })
          (elim a.encoded [ [] ↦ null | c ∷ t ↦ out.unpickle (out.b64decode (c ∷ t)) ]) in
      (u, rw (received, run_assignment) e)

  slice_of-to_dict :
      (a : Assignment) (spec : TaskSpec)
      → a.task_spec ≡ to_dict out.runtime spec
      → slice_of a ≡ spec.task_id
  unfolding slice_of to_dict field_or text_eq
  slice_of-to_dict a spec h = rw (h, slice_of) refl

  -- A round of the worker, with its one slice run to the end.
  work_off-Progressed :
      (now : ℕ) (worker_id task_id : Text) (m : ℕ) (r : AssignResult × Dispatcher) (w : Worker)
      → IsReady worker_id w
      → Given out worker_id task_id m r
      → IsReady worker_id (work_off out refusal handler now r w).0
        × Progressed out task_id m (work_off out refusal handler now r w).1
  unfolding work_off execute_end store_future send_complete step
  work_off-Progressed now worker_id task_id m (nothing, d) w h g = absurd (cc g.result)
  work_off-Progressed now worker_id task_id m (data_failed, d) w h g = absurd (cc g.result)
  work_off-Progressed now worker_id task_id m (raised f, d) w h g = absurd (cc g.result)
  work_off-Progressed now worker_id task_id m (assigned a, d) w h g =
      let same : a ≡ g.assignment = cc g.result in
      let carried = ap (λ (x : Assignment). x.task_spec) same ∙ g.carried in
      let (u, ran) = run_returns a g.spec carried in
      let parent = ap parent_id (slice_of-to_dict a g.spec carried) ∙ g.parent in
      rw (ran, execute_end)
        (
          record {
            named = h.named;
            free =
                ap (λ (f : Dict Future). erase (slice_of a) (put (slice_of a) (record {}) f)) h.free
                ∙ erase-put_nil (slice_of a) (record {});
            place = h.place;
            any = h.any;
          },
          on_complete-Progressed out now _ (slice_of a) _ task_id m d parent g.left,
        )

  round-Progressed :
      (now : ℕ) (worker_id task_id : Text) (m : ℕ) (w : Worker) (d : Dispatcher)
      → IsReady worker_id w
      → Awaits out task_id (suc m) d
      → IsReady worker_id (round out refusal handler now w d).0
        × Progressed out task_id m (round out refusal handler now w d).1
  unfolding round ask
  round-Progressed now worker_id task_id m w d h k = rw (IsReady-poll worker_id w h) (
      work_off-Progressed now worker_id task_id m _ w h
        (assign_task-Given out now worker_id task_id w.capabilities m d h.any k))

  -- As many rounds as slices are missing.
  pub rounds-completed :
      (times : List ℕ) (worker_id task_id : Text) (m : ℕ) (w : Worker) (d : Dispatcher)
      → length times ≡ suc m
      → IsReady worker_id w
      → Awaits out task_id (suc m) d
      → Progressed out task_id 0 (rounds out refusal handler times w d).1
  unfolding rounds Progressed
  rounds-completed [] worker_id task_id m w d l h k = absurd (omega (arith, l))
  rounds-completed (now ∷ []) worker_id task_id zero w d l h k =
      (round-Progressed now worker_id task_id 0 w d h k).1
  rounds-completed (now ∷ []) worker_id task_id (suc m) w d l h k = absurd (omega (arith, l))
  rounds-completed (now ∷ later ∷ times) worker_id task_id zero w d l h k =
      absurd (omega (arith, l))
  rounds-completed (now ∷ later ∷ times) worker_id task_id (suc m) w d l h k =
      let (h', k') = round-Progressed now worker_id task_id (suc m) w d h k in
      rounds-completed (later ∷ times) worker_id task_id m _ _ (omega (arith, l)) h' k'
