-- ===== src/Dispatch/Queue.antt =====
-- MemoryTaskQueue (packages/dispatcher/stockstat_dispatcher/queue.py). The standard library's
-- PriorityQueue is its entries in the order of arrival; `get` takes the least, by priority and
-- then by counter. Two entries never have the same counter, so the specs are not compared.
pub mod Order
pub mod Drain
use stock_statistic.Common.{
  ℕ, ◌+◌, ◌<◌, ◌≤◌, ◌≡◌, ◌⊎◌, Bool, true, false, Option, none, some, List, [], ◌∷◌, ◌++◌, map, ltb,
  ◌==◌, if◌then◌else◌,
}
use stock_statistic.Common.Lists.{length}
use stock_statistic.Common.Integer.{ℤ, ltb_ℤ, ◌<ℤ◌}
use stock_statistic.Protocol.Task.{TaskSpec}

-- The tuple `(priority, counter, spec)`.
pub record Entry : Type 0 where
  pub priority : ℤ
  pub counter : ℕ
  pub spec : TaskSpec

pub record TaskQueue : Type 0 where
  pub entries : List Entry
  pub counter : ℕ

abbrev pub new_queue : TaskQueue
new_queue = record { entries = []; counter = 0 }

-- The order of the tuples.
abbrev pub precedes : Entry → Entry → Bool
precedes a b =
    if ltb_ℤ a.priority b.priority
    then true
    else if ltb_ℤ b.priority a.priority
    then false
    else ltb a.counter b.counter

unfoldable pub enqueue : TaskSpec → TaskQueue → TaskQueue
enqueue spec q =
    let entry : Entry = record {
      priority = spec.dispatch_spec.priority;
      counter = q.counter + 1;
      spec = spec;
    } in
    record { entries = q.entries ++ entry ∷ []; counter = q.counter + 1 }

-- The least of `e` and the entries.
unfoldable pub least : Entry → List Entry → Entry
least e [] = e
least e (f ∷ es) = least (if precedes f e then f else e) es

unfoldable pub without : ℕ → List Entry → List Entry
without c [] = []
without c (e ∷ es) = if e.counter == c then es else e ∷ without c es

unfoldable pub pop : TaskQueue → Option (Entry × TaskQueue)
unfolding least without
pop q = elim q.entries [
  | [] ↦ none
  | e ∷ es ↦ let m = least e es in some (m, record q { entries = without m.counter (e ∷ es) })
]

-- `dequeue(block=False)`
unfoldable pub dequeue : TaskQueue → Option TaskSpec × TaskQueue
unfolding pop
dequeue q = elim (pop q) [ none ↦ (none, q) | some (e, q') ↦ (some e.spec, q') ]

unfoldable pub size : TaskQueue → ℕ
size q = length q.entries

-- The specifications in the order of their arrival.
abbrev pub arrived_specs : TaskQueue → List TaskSpec
arrived_specs q = map (λ e. e.spec) q.entries

unfoldable pub clear : TaskQueue → TaskQueue
clear q = record q { entries = [] }
