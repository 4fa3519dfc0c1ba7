-- ===== src/Compute/Worker/Steps.antt =====
-- The worker's main thread and its pool, in any order
-- (packages/compute/stockstat_compute/worker.py).
use stock_statistic.Common.{
  ℕ, suc, ◌+◌, ◌≤◌, ◌<◌, ◌≡◌, refl, Bool, true, Option, none, some, List, [], ◌∷◌, ◌++◌, arith,
}
use stock_statistic.Common.Lists.{length}
use stock_statistic.Common.Text.{Text}
use stock_statistic.Common.Dict.{Dict, get, put, erase}
use stock_statistic.Dispatch.State.{Outside}
use stock_statistic.Compute.Local.{Outcome, returned, raised}
use stock_statistic.Compute.Worker.{
  Worker, stop, drain, preempt, resume, poll, store_future, execute_end, goes_on,
}

-- The slices that the pool has, and the one whose future `_poll_and_execute` is about to store.
pub record State : Type 0 where
  pub worker : Worker
  pub pool : List Text
  pub storing : Option Text

-- `handed` is a poll that brought a slice, up to `submit`; `ended` a thread of the pool that ends.
pub data Step (out : Outside) : State → State → Type 0 where
  handed :
      {s : State} (slice_id : Text) {asked : Text × List Text}
      → s.storing ≡ none
      → goes_on s.worker ≡ true
      → poll s.worker ≡ some asked
      → Step out s (record s { pool = s.pool ++ slice_id ∷ []; storing = some slice_id })
  stored :
      {s : State} {slice_id : Text}
      → s.storing ≡ some slice_id
      → Step out s (record s { worker = store_future slice_id s.worker; storing = none })
  ended :
      {s : State} (before : List Text) (slice_id : Text) (after : List Text) (o : Outcome)
      (no_complete : Option Text) (lost : Bool)
      → s.pool ≡ before ++ slice_id ∷ after
      → Step out s (record s {
        pool = before ++ after;
        worker = (execute_end out slice_id o no_complete lost s.worker).1;
      })
  stopped : {s : State} → Step out s (record s { worker = stop s.worker })
  drained : {s : State} → Step out s (record s { worker = drain s.worker })
  preempted : {s : State} (t : Text) → Step out s (record s { worker = preempt t s.worker })
  resumed : {s : State} (t : Text) → Step out s (record s { worker = resume t s.worker })

pub data Reached (out : Outside) (s : State) : State → Type 0 where
  here : Reached out s s
  next : {t u : State} → Reached out s t → Step out t u → Reached out s u

-- A worker that starts, with nothing to do.
abbrev pub at_rest : Worker → State
at_rest w = record { worker = w; pool = []; storing = none }

abbrev pub waiting : Option Text → ℕ
waiting none = 0
waiting (some t) = 1

module _ {V : Type 0} where
  length-erase : (k : Text) (d : Dict V) → length (erase k d) ≤ length d
  unfolding erase
  length-erase k [] = omega arith
  length-erase k ((j, v) ∷ d) = ground (arith, length-erase k d)

  length-put : (k : Text) (v : V) (d : Dict V) → length (put k v d) ≤ suc (length d)
  unfolding put
  length-put k v [] = omega arith
  length-put k v ((j, w) ∷ d) = ground (arith, length-put k v d)

  pub length-put_new :
      (k : Text) (v : V) (d : Dict V) → get k d ≡ none → length (put k v d) ≡ suc (length d)
  unfolding put get
  length-put_new k v [] h = omega arith
  length-put_new k v ((j, w) ∷ d) h = ground (arith, h, length-put_new k v d)

  pub erase_new : (k : Text) (d : Dict V) → get k d ≡ none → erase k d ≡ d
  unfolding erase get
  erase_new k [] h = refl
  erase_new k ((j, w) ∷ d) h = ground (arith, h, erase_new k d)

-- What the end of a thread does to the futures.
pub futures-execute_end :
    (out : Outside) (slice_id : Text) (o : Outcome) (no_complete : Option Text) (lost : Bool)
    (w : Worker)
    → (execute_end out slice_id o no_complete lost w).1.active_futures
      ≡ erase slice_id w.active_futures
unfolding execute_end
futures-execute_end out slice_id (raised m) no_complete lost w = refl
futures-execute_end out slice_id (returned v) (some m) lost w = refl
futures-execute_end out slice_id (returned v) none lost w = refl

pub concurrency-execute_end :
    (out : Outside) (slice_id : Text) (o : Outcome) (no_complete : Option Text) (lost : Bool)
    (w : Worker)
    → (execute_end out slice_id o no_complete lost w).1.concurrency ≡ w.concurrency
unfolding execute_end
concurrency-execute_end out slice_id (raised m) no_complete lost w = refl
concurrency-execute_end out slice_id (returned v) (some m) lost w = refl
concurrency-execute_end out slice_id (returned v) none lost w = refl

-- A worker that asks has a free place.
pub poll_free :
    (w : Worker) (asked : Text × List Text)
    → poll w ≡ some asked
    → length w.active_futures < w.concurrency
unfolding poll
poll_free w asked h = ground (arith, h)

-- The futures, and the one that is about to be stored, have no more than the worker's places.
abbrev pub IsBounded : State → Type 0
IsBounded s = length s.worker.active_futures + waiting s.storing ≤ s.worker.concurrency

Step-IsBounded : (out : Outside) {s t : State} → Step out s t → IsBounded s → IsBounded t
unfolding store_future stop drain preempt resume
Step-IsBounded out (handed {s = s} slice_id {asked = asked} free on p) h =
    omega (arith, poll_free s.worker asked p)
Step-IsBounded out (stored {s = s} {slice_id = slice_id} p) h =
    let one : waiting s.storing ≡ 1 = rw p refl in
    omega (arith, h, one, length-put slice_id (record {}) s.worker.active_futures)
Step-IsBounded out (ended {s = s} before slice_id after o no_complete lost p) h =
    rw
      (
        futures-execute_end out slice_id o no_complete lost s.worker,
        concurrency-execute_end out slice_id o no_complete lost s.worker,
      )
      (omega (arith, h, length-erase slice_id s.worker.active_futures))
Step-IsBounded out stopped h = h
Step-IsBounded out drained h = h
Step-IsBounded out (preempted t) h = h
Step-IsBounded out (resumed t) h = h

-- From a worker that starts with no futures, however its threads run, it holds no more futures
-- than it has places.
pub Reached-IsBounded :
    (out : Outside) (w : Worker) (t : State)
    → w.active_futures ≡ []
    → Reached out (at_rest w) t
    → IsBounded t
Reached-IsBounded out w t e here = rw e (omega arith)
Reached-IsBounded out w t e (next r p) = Step-IsBounded out p (Reached-IsBounded out w _ e r)
