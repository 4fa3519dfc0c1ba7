-- ===== src/Dispatch/Assign/Search.antt =====
-- Which task `assign_task` hands out, and what becomes of the tasks that it passes over
-- (packages/dispatcher/stockstat_dispatcher/core.py).
use mathlib.Core.List.Permᴰ
use mathlib.Core.List.{Permᴰ}
use stock_statistic.Common.{
  ℕ, zero, suc, ◌<◌, ◌≡◌, refl, sym, ap, ◌∙◌, inl, inr, true, false, Option, none, some, List, [],
  ◌∷◌, ◌++◌, map, arith, Bool-cases, Option-cases,
}
use stock_statistic.Common.Lists.{All, perm_length}
use stock_statistic.Common.Text.{Text}
use stock_statistic.Protocol.Task.{TaskSpec}
use stock_statistic.Dispatch.Queue.{Entry, TaskQueue, pop, dequeue, size, enqueue}
use stock_statistic.Dispatch.Queue.Order.{IsValid, pop-IsFirst, enqueue-IsValid}
use stock_statistic.Dispatch.State.{enqueue_all}
use stock_statistic.Dispatch.Assign.{can_run, find_task}

-- `q'` is what is left of `q` after the entries were dequeued in this order.
pub data Pops : TaskQueue → List Entry → TaskQueue → Type 0 where
  here : {q : TaskQueue} → Pops q [] q
  next :
      {q q' q'' : TaskQueue} {e : Entry} {es : List Entry}
      → pop q ≡ some (e, q')
      → Pops q' es q''
      → Pops q (e ∷ es) q''

abbrev pub CannotRun : List Text → Entry → Type 0
CannotRun capabilities e = can_run capabilities e.spec ≡ false

abbrev pub specs : List Entry → List TaskSpec
specs es = map (λ (e : Entry). e.spec) es

-- A task was found: the first in the queue's order that the worker can run. What was dequeued
-- before it, `passed`, is not in the queue that is left.
pub record Found (capabilities : List Text) (q : TaskQueue) (spec : TaskSpec) (left : TaskQueue)
    : Type 0 where
  pub passed : List Entry
  pub entry : Entry
  pub popped : Pops q (passed ++ entry ∷ []) left
  pub unable : All (CannotRun capabilities) passed
  pub able : can_run capabilities entry.spec ≡ true
  pub given : spec ≡ entry.spec
  pub lost : Permᴰ q.entries (passed ++ entry ∷ left.entries)
  pub valid : IsValid left

-- No task was found: the worker can run none, and all go back in the order of the queue.
pub record Exhausted (capabilities : List Text) (skipped : List TaskSpec) (q left : TaskQueue)
    : Type 0 where
  pub passed : List Entry
  pub empty : TaskQueue
  pub popped : Pops q passed empty
  pub no_entry : pop empty ≡ none
  pub unable : All (CannotRun capabilities) passed
  pub returned : left ≡ enqueue_all (skipped ++ specs passed) empty
  pub all : Permᴰ q.entries (passed ++ empty.entries)
  pub valid : IsValid empty

abbrev pub Outcome : List Text → List TaskSpec → TaskQueue → Option TaskSpec × TaskQueue → Type 0
Outcome capabilities skipped q (none, left) = Exhausted capabilities skipped q left
Outcome capabilities skipped q (some spec, left) = Found capabilities q spec left

append_nil {ℓ} : {A : Type ℓ} (xs : List A) → xs ++ [] ≡ xs
append_nil [] = refl
append_nil (x ∷ xs) = ap (λ l. x ∷ l) (append_nil xs)

append_snoc {ℓ} : {A : Type ℓ} (xs ys : List A) (x : A) → (xs ++ x ∷ []) ++ ys ≡ xs ++ x ∷ ys
append_snoc [] ys x = refl
append_snoc (y ∷ xs) ys x = ap (λ l. y ∷ l) (append_snoc xs ys x)

shorter :
    (q q' : TaskQueue) (e : Entry) (fuel : ℕ)
    → Permᴰ q.entries (e ∷ q'.entries)
    → size q < suc fuel
    → size q' < fuel
unfolding size
shorter q q' e fuel same h = omega (arith, perm_length same)

module _ (capabilities : List Text) where
  -- A task that was passed over stands before the rest of the search.
  after_passing :
      (skipped : List TaskSpec) (q q' : TaskQueue) (e : Entry) (r : Option TaskSpec × TaskQueue)
      → pop q ≡ some (e, q')
      → Permᴰ q.entries (e ∷ q'.entries)
      → CannotRun capabilities e
      → Outcome capabilities (skipped ++ e.spec ∷ []) q' r
      → Outcome capabilities skipped q r
  after_passing skipped q q' e (none, left) p same unable o = record {
    passed = e ∷ o.passed;
    empty = o.empty;
    popped = next p o.popped;
    no_entry = o.no_entry;
    unable = (unable, o.unable);
    returned =
        o.returned ∙ ap (λ l. enqueue_all l o.empty) (append_snoc skipped (specs o.passed) e.spec);
    all = Permᴰ.trans same (Permᴰ.cons refl o.all);
    valid = o.valid;
  }
  after_passing skipped q q' e (some spec, left) p same unable o = record {
    passed = e ∷ o.passed;
    entry = o.entry;
    popped = next p o.popped;
    unable = (unable, o.unable);
    able = o.able;
    given = o.given;
    lost = Permᴰ.trans same (Permᴰ.cons refl o.lost);
    valid = o.valid;
  }

  find_task-none :
      (fuel : ℕ) (skipped : List TaskSpec) (q : TaskQueue)
      → pop q ≡ none
      → find_task (suc fuel) capabilities skipped q ≡ (none, enqueue_all skipped q)
  unfolding find_task dequeue
  find_task-none fuel skipped q p = ground (arith, p)

  find_task_found :
      (fuel : ℕ) (skipped : List TaskSpec) (q q' : TaskQueue) (e : Entry)
      → pop q ≡ some (e, q')
      → can_run capabilities e.spec ≡ true
      → find_task (suc fuel) capabilities skipped q ≡ (some e.spec, q')
  unfolding find_task dequeue
  find_task_found fuel skipped q q' e p able = ground (arith, p, able)

  find_task_pass :
      (fuel : ℕ) (skipped : List TaskSpec) (q q' : TaskQueue) (e : Entry)
      → pop q ≡ some (e, q')
      → can_run capabilities e.spec ≡ false
      → find_task (suc fuel) capabilities skipped q
        ≡ find_task fuel capabilities (skipped ++ e.spec ∷ []) q'
  unfolding find_task dequeue
  find_task_pass fuel skipped q q' e p unable = ground (arith, p, unable)

  find_task_lem :
      (fuel : ℕ) (skipped : List TaskSpec) (q : TaskQueue)
      → IsValid q
      → size q < fuel
      → Outcome capabilities skipped q (find_task fuel capabilities skipped q)
  find_task_lem zero skipped q v h = absurd (omega arith)
  find_task_lem (suc fuel) skipped q v h = elim (Option-cases (pop q)) [
    | inl empty ↦ rw (find_task-none fuel skipped q empty) (record {
      passed = [];
      empty = q;
      popped = here;
      no_entry = empty;
      unable = tt;
      returned = ap (λ l. enqueue_all l q) (sym (append_nil skipped));
      all = Permᴰ.refl q.entries;
      valid = v;
    })
    | inr ((e, q'), found) ↦
        let p = pop-IsFirst q e q' v found in
        elim (Bool-cases (can_run capabilities e.spec)) [
          | inl able ↦ rw (find_task_found fuel skipped q q' e found able) (record {
            passed = [];
            entry = e;
            popped = next found here;
            unable = tt;
            able = able;
            given = refl;
            lost = p.same;
            valid = p.valid;
          })
          | inr unable ↦ rw (find_task_pass fuel skipped q q' e found unable) (
              after_passing skipped q q' e _ found p.same unable (
                find_task_lem fuel (skipped ++ e.spec ∷ []) q' p.valid
                  (shorter q q' e fuel p.same h)))
        ]
  ]

-- The search of `assign_task` always ends. It hands out the first task, in the order of the queue,
-- that the worker can run; the tasks that stand before it leave the queue and are handed to nobody.
-- Where the worker can run none, all go back to the queue, in its order.
pub find_task-Outcome :
    (capabilities : List Text) (q : TaskQueue)
    → IsValid q
    → Outcome capabilities [] q (find_task (suc (size q)) capabilities [] q)
find_task-Outcome capabilities q v = find_task_lem capabilities (suc (size q)) [] q v (omega arith)

pub enqueue_all-IsValid :
    (ss : List TaskSpec) (q : TaskQueue) → IsValid q → IsValid (enqueue_all ss q)
unfolding enqueue_all
enqueue_all-IsValid [] q v = v
enqueue_all-IsValid (s ∷ ss) q v = enqueue_all-IsValid ss (enqueue s q) (enqueue-IsValid s q v)

left-IsValid :
    (capabilities : List Text) (q : TaskQueue) (r : Option TaskSpec × TaskQueue)
    → Outcome capabilities [] q r
    → IsValid r.1
left-IsValid capabilities q (none, left) o =
    rw o.returned (enqueue_all-IsValid (specs o.passed) o.empty o.valid)
left-IsValid capabilities q (some spec, left) o = o.valid

pub find_task-IsValid :
    (capabilities : List Text) (q : TaskQueue)
    → IsValid q
    → IsValid (find_task (suc (size q)) capabilities [] q).1
find_task-IsValid capabilities q v =
    left-IsValid capabilities q _ (find_task-Outcome capabilities q v)
