-- ===== src/Dispatch/Queue/Drain.antt =====
-- Emptying the memory queue (packages/dispatcher/stockstat_dispatcher/queue.py): the order in which
-- dequeuing hands the tasks out.
use stock_statistic.Common.{ℕ, zero, suc, ◌≡◌, none, some, List, [], ◌∷◌, arith}
use stock_statistic.Common.Lists.{All}
use stock_statistic.Dispatch.Queue.{Entry, TaskQueue, pop}
use stock_statistic.Dispatch.Queue.Order.{Precedes}

-- The entries that at most `n` calls of `dequeue` hand out.
unfoldable pub drain : ℕ → TaskQueue → List Entry
drain zero q = []
drain (suc n) q = elim (pop q) [ none ↦ [] | some (e, q') ↦ e ∷ drain n q' ]

-- Each entry precedes all that come after it.
abbrev pub IsSorted : List Entry → Type 0
IsSorted [] = Unit
IsSorted (e ∷ es) = All (Precedes e) es × IsSorted es

pub pop-none : (q : TaskQueue) → pop q ≡ none → q.entries ≡ []
unfolding pop
pop-none q h = ground arith
