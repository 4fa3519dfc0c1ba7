-- ===== src/Compute/Worker/Stuck.antt =====
-- A thread that ends before its future is stored
-- (packages/compute/stockstat_compute/worker.py).
use stock_statistic.Common.{
  suc, ◌≤◌, ◌≡◌, refl, sym, ◌∙◌, ◌≢◌, Bool, true, Option, none, some, List, [], ◌∷◌, ◌++◌, arith,
  Option-cases, inl, inr,
}
use stock_statistic.Common.Lists.{length}
use stock_statistic.Common.Text.{Text}
use stock_statistic.Common.Dict.{get}
use stock_statistic.Dispatch.State.{Outside}
use stock_statistic.Compute.Local.{Outcome}
use stock_statistic.Compute.Worker.{
  Worker, stop, drain, preempt, resume, poll, store_future, execute_end, goes_on,
}
use stock_statistic.Compute.Worker.Steps.{
  State, at_rest, Step, handed, stored, ended, stopped, drained, preempted, resumed, Reached, here,
  next, poll_free, futures-execute_end, concurrency-execute_end, erase_new, length-put_new,
}

-- No thread runs, and every place is taken.
pub record IsStuck (s : State) : Type 0 where
  pub idle : s.pool ≡ []
  pub settled : s.storing ≡ none
  pub full : s.worker.concurrency ≤ length s.worker.active_futures

not_empty : (xs : List Text) (x : Text) (ys : List Text) → [] ≢ xs ++ x ∷ ys
not_empty [] x ys h = cc h
not_empty (z ∷ xs) x ys h = cc h

Step-IsStuck : (out : Outside) {s t : State} → Step out s t → IsStuck s → IsStuck t
unfolding stop drain preempt resume
Step-IsStuck out (handed {s = s} slice_id {asked = asked} free on p) h =
    absurd (omega (arith, h.full, poll_free s.worker asked p))
Step-IsStuck out (stored p) h = absurd (cc (h.settled, p))
Step-IsStuck out (ended before slice_id after o no_complete lost p) h =
    absurd (not_empty before slice_id after (sym h.idle ∙ p))
Step-IsStuck out stopped h = record { idle = h.idle; settled = h.settled; full = h.full }
Step-IsStuck out drained h = record { idle = h.idle; settled = h.settled; full = h.full }
Step-IsStuck out (preempted t) h = record { idle = h.idle; settled = h.settled; full = h.full }
Step-IsStuck out (resumed t) h = record { idle = h.idle; settled = h.settled; full = h.full }

Reached-IsStuck : (out : Outside) {s t : State} → Reached out s t → IsStuck s → IsStuck t
Reached-IsStuck out here h = h
Reached-IsStuck out (next r p) h = Step-IsStuck out p (Reached-IsStuck out r h)

IsStuck-poll : (s : State) → IsStuck s → poll s.worker ≡ none
IsStuck-poll s h = elim (Option-cases (poll s.worker)) [
  | inl nothing ↦ nothing
  | inr (asked, p) ↦ absurd (omega (arith, h.full, poll_free s.worker asked p))
]

-- The worker after a thread ended before the main thread stored its future.
abbrev pub late :
    Outside → Text → Outcome → (no_complete : Option Text) (lost : Bool) → Worker → Worker
late out slice_id o no_complete lost w =
    store_future slice_id (execute_end out slice_id o no_complete lost w).1

late-IsStuck :
    (out : Outside) (slice_id : Text) (o : Outcome) (no_complete : Option Text) (lost : Bool)
    (w : Worker)
    → get slice_id w.active_futures ≡ none
    → w.concurrency ≡ suc (length w.active_futures)
    → w.concurrency ≤ length (late out slice_id o no_complete lost w).active_futures
unfolding store_future
late-IsStuck out slice_id o no_complete lost w h k =
    rw
      (
        futures-execute_end out slice_id o no_complete lost w,
        erase_new slice_id w.active_futures h,
        length-put_new slice_id (record {}) w.active_futures h,
      )
      (omega (arith, k))

-- A worker with one place left is handed a slice, and the thread ends before the main thread has
-- stored its future. The three steps can be taken; after them, when no other thread runs, the
-- worker never asks for work again, whatever it does.
pub late-ne-poll :
    (out : Outside) (w : Worker) (slice_id : Text) (asked : Text × List Text) (o : Outcome)
    (no_complete : Option Text) (lost : Bool)
    → goes_on w ≡ true
    → poll w ≡ some asked
    → get slice_id w.active_futures ≡ none
    → w.concurrency ≡ suc (length w.active_futures)
    → Reached out (at_rest w) (at_rest (late out slice_id o no_complete lost w))
      × ((t : State)
          → Reached out (at_rest (late out slice_id o no_complete lost w)) t
          → poll t.worker ≡ none)
unfolding store_future
late-ne-poll out w slice_id asked o no_complete lost g p h k = (
  next (next (next here (handed slice_id refl g p)) (ended [] slice_id [] o no_complete lost refl))
      (stored refl),
  λ t r. IsStuck-poll t (
      Reached-IsStuck out r (record {
        idle = refl;
        settled = refl;
        full =
            rw (concurrency-execute_end out slice_id o no_complete lost w)
              (late-IsStuck out slice_id o no_complete lost w h k);
      })),
)
