-- ===== src/Dispatch/Watch/Release.antt =====
-- What the reassignment of a worker's slices does
-- (packages/dispatcher/stockstat_dispatcher/core.py).
use mathlib.Core.Path.{ap₂}
use stock_statistic.Common.{
  ℕ, ◌+◌, ◌≡◌, refl, sym, ap, ◌∙◌, Bool, List, ◌++◌, Option, none, some, [], ◌∷◌, arith, Bool-cases,
  inl, inr, Option-cases, not, ◌&&◌, is_some, if◌then◌else◌, map,
}
use stock_statistic.Common.Lists.{concat, filter, count_if, length-append}
use stock_statistic.Common.Sum.{sum_by}
use stock_statistic.Common.Text.{Text, text_eq}
use stock_statistic.Common.Dict.{Dict, get, values}
use stock_statistic.Protocol.Task.{TaskSpec}
use mathlib.Core.List.{append-nil, append_assoc}
use stock_statistic.Dispatch.Queue.{TaskQueue, enqueue, size, arrived_specs}
use stock_statistic.Dispatch.Queue.Order.{IsValid, enqueue-IsValid, arrived_specs-enqueue}
use stock_statistic.Dispatch.State.{TaskEntry, Dispatcher}
use stock_statistic.Dispatch.Watch.{
  enqueue_known, release_one, release_slices, release_tasks, reassign_worker_tasks,
}

enqueue_known-IsValid :
    (o : Option TaskSpec) (q : TaskQueue) → IsValid q → IsValid (enqueue_known o q)
enqueue_known-IsValid none q v = v
enqueue_known-IsValid (some s) q v = enqueue-IsValid s q v

module _ (worker_id : Text) where
  -- An assignment to the worker, of a slice that the task knows.
  abbrev pub is_known : Dict TaskSpec → Text × Text → Bool
  is_known slices (slice_id, wid) = text_eq wid worker_id && is_some (get slice_id slices)

  abbrev pub is_foreign : Text × Text → Bool
  is_foreign (slice_id, wid) = not (text_eq wid worker_id)

  -- The slices of a task that go back to the queue.
  abbrev pub released : TaskEntry → ℕ
  released t = count_if (is_known t.slices_by_id) t.assigned_slices

  -- The specifications of these slices, in the order of their assignments.
  abbrev pub held_slices : Dict TaskSpec → Dict Text → List TaskSpec
  held_slices slices [] = []
  held_slices slices ((slice_id, wid) ∷ d) =
      (if text_eq wid worker_id
        then (elim (get slice_id slices) [ none ↦ [] | some s ↦ s ∷ [] ])
        else [])
      ++ held_slices slices d

  abbrev pub held_by : TaskEntry → List TaskSpec
  held_by t = held_slices t.slices_by_id t.assigned_slices

  -- The entry without the worker's assignments.
  abbrev pub freed : TaskEntry → TaskEntry
  freed t = record t { assigned_slices = filter is_foreign t.assigned_slices }

  size-enqueue : (s : TaskSpec) (q : TaskQueue) → size (enqueue s q) ≡ size q + 1
  unfolding size enqueue
  size-enqueue s q = length-append q.entries _

  size-release_one :
      (slices : Dict TaskSpec) (a : Text × Text) (q : TaskQueue)
      → size (release_one worker_id slices a q) ≡ size q + (if is_known slices a then 1 else 0)
  unfolding release_one
  size-release_one slices (slice_id, wid) q = elim (Option-cases (get slice_id slices)) [
    | inl unknown ↦ rw unknown (ground arith)
    | inr (s, known) ↦ rw known (ground (arith, size-enqueue s q))
  ]

  specs-release_one :
      (slices : Dict TaskSpec) (slice_id wid : Text) (q : TaskQueue)
      → arrived_specs (release_one worker_id slices (slice_id, wid) q)
        ≡ arrived_specs q
          ++ (if text_eq wid worker_id
              then (elim (get slice_id slices) as (λ x. List TaskSpec) [
                | none ↦ []
                | some s ↦ s ∷ []
              ])
              else [])
  unfolding release_one
  specs-release_one slices slice_id wid q = elim (Bool-cases (text_eq wid worker_id)) [
    | inl mine ↦ elim (Option-cases (get slice_id slices)) [
      | inl unknown ↦ rw (mine, unknown) (sym (append-nil (arrived_specs q)))
      | inr (s, known) ↦ rw (mine, known) (arrived_specs-enqueue s q)
    ]
    | inr other ↦ rw other (sym (append-nil (arrived_specs q)))
  ]

  specs-release_slices :
      (slices : Dict TaskSpec) (d : Dict Text) (q : TaskQueue)
      → arrived_specs (release_slices worker_id slices d q).1
        ≡ arrived_specs q ++ held_slices slices d
  unfolding release_slices
  specs-release_slices slices [] q = sym (append-nil (arrived_specs q))
  specs-release_slices slices ((slice_id, wid) ∷ d) q =
      specs-release_slices slices d (release_one worker_id slices (slice_id, wid) q)
      ∙ ap (λ l. l ++ held_slices slices d) (specs-release_one slices slice_id wid q)
      ∙ append_assoc (arrived_specs q) _ (held_slices slices d)

  left-release_slices :
      (slices : Dict TaskSpec) (d : Dict Text) (q : TaskQueue)
      → (release_slices worker_id slices d q).0 ≡ filter is_foreign d
  unfolding release_slices
  left-release_slices slices [] q = refl
  left-release_slices slices ((slice_id, wid) ∷ d) q = elim (Bool-cases (text_eq wid worker_id)) [
    | inl mine ↦ rw mine (left-release_slices slices d _)
    | inr other ↦ rw other (ap (λ l. (slice_id, wid) ∷ l) (left-release_slices slices d _))
  ]

  size-release_slices :
      (slices : Dict TaskSpec) (d : Dict Text) (q : TaskQueue)
      → size (release_slices worker_id slices d q).1 ≡ size q + count_if (is_known slices) d
  unfolding release_slices
  size-release_slices slices [] q = omega arith
  size-release_slices slices ((slice_id, wid) ∷ d) q = ground (
    arith,
    size-release_slices slices d (release_one worker_id slices (slice_id, wid) q),
    size-release_one slices (slice_id, wid) q,
  )

  entries-release_tasks :
      (d : Dict TaskEntry) (q : TaskQueue)
      → values (release_tasks worker_id d q).0 ≡ map freed (values d)
  unfolding release_tasks
  entries-release_tasks [] q = refl
  entries-release_tasks ((k, t) ∷ d) q =
      ap₂ (λ left rest. record t { assigned_slices = left } ∷ rest)
        (left-release_slices t.slices_by_id t.assigned_slices q) (entries-release_tasks d _)

  size-release_tasks :
      (d : Dict TaskEntry) (q : TaskQueue)
      → size (release_tasks worker_id d q).1 ≡ size q + sum_by released (values d)
  unfolding release_tasks
  size-release_tasks [] q = omega arith
  size-release_tasks ((k, t) ∷ d) q =
      let q' = (release_slices worker_id t.slices_by_id t.assigned_slices q).1 in
      omega (arith, size-release_tasks d q', size-release_slices t.slices_by_id t.assigned_slices q)

  specs-release_tasks :
      (d : Dict TaskEntry) (q : TaskQueue)
      → arrived_specs (release_tasks worker_id d q).1
        ≡ arrived_specs q ++ concat (map held_by (values d))
  unfolding release_tasks
  specs-release_tasks [] q = sym (append-nil (arrived_specs q))
  specs-release_tasks ((k, t) ∷ d) q =
      specs-release_tasks d (release_slices worker_id t.slices_by_id t.assigned_slices q).1
      ∙ ap (λ l. l ++ concat (map held_by (values d)))
          (specs-release_slices t.slices_by_id t.assigned_slices q)
      ∙ append_assoc (arrived_specs q) (held_by t) (concat (map held_by (values d)))

-- After the reassignment every task has the assignments that it had to other workers, and no
-- other; the slices that were assigned to the worker, as the tasks know them, have arrived in the
-- queue after what was there, and nothing else has, whether their results are already in or not.
pub reassign_worker_tasks_lem :
    (worker_id : Text) (d : Dispatcher)
    → (values (reassign_worker_tasks worker_id d).tasks ≡ map (freed worker_id) (values d.tasks))
      × (size (reassign_worker_tasks worker_id d).queue
          ≡ size d.queue + sum_by (released worker_id) (values d.tasks))
      × (arrived_specs (reassign_worker_tasks worker_id d).queue
          ≡ arrived_specs d.queue ++ concat (map (held_by worker_id) (values d.tasks)))
unfolding reassign_worker_tasks
reassign_worker_tasks_lem worker_id d = (
  entries-release_tasks worker_id d.tasks d.queue,
  size-release_tasks worker_id d.tasks d.queue,
  specs-release_tasks worker_id d.tasks d.queue,
)

release_one-IsValid :
    (worker_id : Text) (slices : Dict TaskSpec) (a : Text × Text) (q : TaskQueue)
    → IsValid q
    → IsValid (release_one worker_id slices a q)
unfolding release_one
release_one-IsValid worker_id slices (slice_id, wid) q v =
    elim (Bool-cases (text_eq wid worker_id)) [
      | inl mine ↦ rw mine (enqueue_known-IsValid (get slice_id slices) q v)
      | inr other ↦ rw other v
    ]

release_slices-IsValid :
    (worker_id : Text) (slices : Dict TaskSpec) (d : Dict Text) (q : TaskQueue)
    → IsValid q
    → IsValid (release_slices worker_id slices d q).1
unfolding release_slices
release_slices-IsValid worker_id slices [] q v = v
release_slices-IsValid worker_id slices ((slice_id, wid) ∷ d) q v =
    release_slices-IsValid worker_id slices d _
      (release_one-IsValid worker_id slices (slice_id, wid) q v)

release_tasks-IsValid :
    (worker_id : Text) (d : Dict TaskEntry) (q : TaskQueue)
    → IsValid q
    → IsValid (release_tasks worker_id d q).1
unfolding release_tasks
release_tasks-IsValid worker_id [] q v = v
release_tasks-IsValid worker_id ((k, t) ∷ d) q v =
    release_tasks-IsValid worker_id d _
      (release_slices-IsValid worker_id t.slices_by_id t.assigned_slices q v)

-- The reassignment keeps the queue valid.
pub reassign_worker_tasks-IsValid :
    (worker_id : Text) (d : Dispatcher)
    → IsValid d.queue
    → IsValid (reassign_worker_tasks worker_id d).queue
unfolding reassign_worker_tasks
reassign_worker_tasks-IsValid worker_id d v = release_tasks-IsValid worker_id d.tasks d.queue v
