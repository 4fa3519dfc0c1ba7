-- ===== src/Compute/Local/Threads.antt =====
-- A local task and its thread, with calls of `cancel` at any moment
-- (packages/compute/stockstat_compute/backend/local.py).
use mathlib.Core.Path.{subst}
use stock_statistic.Common.{sym, ap, ℕ, ◌≡◌, refl, true, false, none, arith}
use stock_statistic.Protocol.Value.{Value, null}
use stock_statistic.Protocol.Task.{TaskSpec}
use stock_statistic.Dispatch.State.{TaskState, completed, failed}
use stock_statistic.Compute.Local.{
  LocalTask, new_task, begin, Outcome, returned, raised, conclude, is_open, cancel_task, Answer, ok,
  task_failed, wait_of,
}

-- Where the thread stands.
pub data Phase : Type 0 where
  waiting in_handler : Phase
  ended : Outcome → Phase

-- A step of the thread, or a call of `cancel`.
pub data Step : Phase → LocalTask → Phase → LocalTask → Type 0 where
  began : {t : LocalTask} (now : ℕ) → Step waiting t in_handler (begin now t).1
  concluded :
      {t : LocalTask} (now : ℕ) (o : Outcome) → Step in_handler t (ended o) (conclude now o t)
  stopped : {p : Phase} {t : LocalTask} (now : ℕ) → Step p t p (cancel_task now t).1

-- What is reached from the submission of a task.
pub data Reached (now : ℕ) (spec : TaskSpec) : Phase → LocalTask → Type 0 where
  here : Reached now spec waiting (new_task now spec)
  next :
      {p q : Phase} {t u : LocalTask} → Reached now spec p t → Step p t q u → Reached now spec q u

-- The answer that the thread's outcome calls for.
abbrev pub answer_of : Outcome → Answer Value
answer_of (returned v) = ok v
answer_of (raised message) = task_failed message

-- The state that it calls for.
abbrev pub state_of : Outcome → TaskState
state_of (returned v) = completed
state_of (raised message) = failed

-- What holds in each phase: nothing is stored before the thread ends, and its outcome after it.
abbrev pub Expected : Phase → LocalTask → Type 0
Expected (ended o) t = (t.info.state ≡ state_of o) × ((wait_of t ≡ answer_of o) × (t.done ≡ true))
Expected _ t = (t.result ≡ null) × (t.error ≡ none)

cancel_closed : (now : ℕ) (t : LocalTask) → is_open t.info.state ≡ false → (cancel_task now t).1 ≡ t
unfolding cancel_task
cancel_closed now t h = ground (arith, h)

cancel-Expected :
    (now : ℕ) (p : Phase) (t : LocalTask) → Expected p t → Expected p (cancel_task now t).1
unfolding cancel_task
cancel-Expected now waiting t h = ground (arith, h)
cancel-Expected now in_handler t h = ground (arith, h)
cancel-Expected now (ended (returned v)) t h =
    subst (Expected (ended (returned v))) (sym (cancel_closed now t (ap is_open h.0))) h
cancel-Expected now (ended (raised message)) t h =
    subst (Expected (ended (raised message))) (sym (cancel_closed now t (ap is_open h.0))) h

Step-Expected : {p q : Phase} {t u : LocalTask} → Step p t q u → Expected p t → Expected q u
unfolding begin conclude
Step-Expected (began now) h = h
Step-Expected (concluded now (returned v)) h = (refl, (refl, refl))
Step-Expected (concluded now (raised message)) h = (refl, (refl, refl))
Step-Expected {p = p} {t = t} (stopped now) h = cancel-Expected now p t h

-- Until the thread of a submitted task ends, no result and no error is stored. Once it has ended,
-- the task is completed or failed as its handler returned or raised, and `wait` answers with that
-- outcome at once, whatever calls of `cancel` came before or after: no cancellation lasts.
pub Reached-Expected :
    (now : ℕ) (spec : TaskSpec) {p : Phase} {t : LocalTask} → Reached now spec p t → Expected p t
unfolding new_task
Reached-Expected now spec here = (refl, refl)
Reached-Expected now spec (next r s) = Step-Expected s (Reached-Expected now spec r)
