-- ===== src/Dispatch/Workers/Consistent.antt =====
-- The status of a worker agrees with its counts, through any run of the registry's methods
-- (packages/dispatcher/stockstat_dispatcher/workers.py).
use stock_statistic.Common.{
  ℕ, ◌+◌, ◌<◌, ◌≤◌, ◌≡◌, Bool, true, false, Option, none, some, List, [], ◌∷◌, arith, Bool-cases,
  inl, inr,
}
use stock_statistic.Common.Lists.{All}
use stock_statistic.Common.Text.{Text}
use stock_statistic.Common.Dict.{Dict, values, All-put, All-modify}
use stock_statistic.Dispatch.Workers.{
  WorkerStatus, online, busy, WorkerRecord, WorkerRegistry, RegisterMessage, HeartbeatMessage,
  get_or, id_or, new_worker, register, beat, update_heartbeat, switch_off, unregister, is_live,
  take_task, increment_active, end_task, decrement_active, is_late, sweep, check_timeouts,
}

-- A busy worker has no free place, an online one has one.
abbrev pub Settled : WorkerStatus → ℕ → ℕ → Type 0
Settled online active concurrency = active < concurrency
Settled busy active concurrency = concurrency ≤ active
Settled _ active concurrency = Unit

abbrev pub IsConsistent : WorkerRecord → Type 0
IsConsistent w = Settled w.status w.active_tasks w.concurrency

abbrev pub AllConsistent : WorkerRegistry → Type 0
AllConsistent r = All IsConsistent (values r.workers)

-- A call of a method that changes the registry.
pub data Event : Type 0 where
  registered : (fresh : Text) (now : ℕ) → RegisterMessage → Event
  beaten : (now : ℕ) → HeartbeatMessage → Event
  unregistered : Text → Event
  incremented : Text → Event
  decremented : Text → (completed failed : Bool) → Event
  checked : (now : ℕ) → Event

unfoldable pub step : Event → WorkerRegistry → WorkerRegistry
step (registered fresh now msg) r = (register fresh now msg r).1
step (beaten now msg) r = update_heartbeat now msg r
step (unregistered wid) r = unregister wid r
step (incremented wid) r = increment_active wid r
step (decremented wid completed failed) r = decrement_active wid completed failed r
step (checked now) r = (check_timeouts now r).1

unfoldable pub run : List Event → WorkerRegistry → WorkerRegistry
unfolding step
run [] r = r
run (e ∷ es) r = run es (step e r)

-- A registration gives the worker at least one place.
abbrev pub HasPlaces : Event → Type 0
HasPlaces (registered fresh now msg) = 0 < get_or 1 msg.concurrency
HasPlaces _ = Unit

new_worker-IsConsistent :
    (fresh : Text) (now : ℕ) (msg : RegisterMessage)
    → 0 < get_or 1 msg.concurrency
    → IsConsistent (new_worker fresh now msg)
unfolding new_worker
new_worker-IsConsistent fresh now msg h = h

beat-IsConsistent :
    (now : ℕ) (msg : HeartbeatMessage) (w : WorkerRecord) → IsConsistent (beat now msg w)
unfolding beat
beat-IsConsistent now msg w = ground arith

take_task-IsConsistent : (w : WorkerRecord) → IsConsistent w → IsConsistent (take_task w)
unfolding take_task
take_task-IsConsistent w h = ground arith

end_task-IsConsistent :
    (completed failed : Bool) (w : WorkerRecord)
    → IsConsistent w
    → IsConsistent (end_task completed failed w)
unfolding end_task
end_task-IsConsistent completed failed w h = ground arith

sweep-IsConsistent :
    (now timeout : ℕ) (d : Dict WorkerRecord)
    → All IsConsistent (values d)
    → All IsConsistent (values (sweep now timeout d).1)
unfolding sweep
sweep-IsConsistent now timeout [] h = tt
sweep-IsConsistent now timeout ((k, w) ∷ d) h = elim (Bool-cases (is_late now timeout w)) [
  | inl late ↦ rw late (tt, sweep-IsConsistent now timeout d h.1)
  | inr early ↦ rw early (h.0, sweep-IsConsistent now timeout d h.1)
]

update_heartbeat-IsConsistent :
    (now : ℕ) (msg : HeartbeatMessage) (wid : Option Text) (r : WorkerRegistry)
    → AllConsistent r
    → AllConsistent (update_heartbeat now (record msg { worker_id = wid }) r)
unfolding update_heartbeat
update_heartbeat-IsConsistent now msg none r h = h
update_heartbeat-IsConsistent now msg (some []) r h = h
update_heartbeat-IsConsistent now msg (some (c ∷ t)) r h =
    All-modify IsConsistent (c ∷ t) _ r.workers
      (λ w _. beat-IsConsistent now (record msg { worker_id = some (c ∷ t) }) w) h

pub step-IsConsistent :
    (e : Event) (r : WorkerRegistry) → HasPlaces e → AllConsistent r → AllConsistent (step e r)
unfolding step register unregister increment_active decrement_active check_timeouts
step-IsConsistent (registered fresh now msg) r p h =
    All-put IsConsistent (id_or fresh msg.worker_id) (new_worker fresh now msg) r.workers
      (new_worker-IsConsistent fresh now msg p) h
step-IsConsistent (beaten now msg) r p h = update_heartbeat-IsConsistent now msg msg.worker_id r h
step-IsConsistent (unregistered wid) r p h =
    All-modify IsConsistent wid switch_off r.workers (λ w _. tt) h
step-IsConsistent (incremented wid) r p h =
    All-modify IsConsistent wid take_task r.workers take_task-IsConsistent h
step-IsConsistent (decremented wid completed failed) r p h =
    All-modify IsConsistent wid (end_task completed failed) r.workers
      (end_task-IsConsistent completed failed) h
step-IsConsistent (checked now) r p h = sweep-IsConsistent now r.offline_timeout r.workers h

-- Where each registration gives at least one place, after any calls every busy worker has no free
-- place and every online worker has one.
pub run-IsConsistent :
    (es : List Event) (r : WorkerRegistry)
    → All HasPlaces es
    → AllConsistent r
    → AllConsistent (run es r)
unfolding run
run-IsConsistent [] r p h = h
run-IsConsistent (e ∷ es) r p h = run-IsConsistent es (step e r) p.1 (step-IsConsistent e r p.0 h)

-- A consistent online or busy worker that is given a task and completes it is as before, with one
-- more completed task.
pub end_task-take_task :
    (w : WorkerRecord)
    → IsConsistent w
    → is_live w.status ≡ true
    → end_task true false (take_task w) ≡ record w { completed_tasks = w.completed_tasks + 1 }
unfolding end_task take_task
end_task-take_task w h live = ground arith
