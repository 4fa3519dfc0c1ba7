-- ===== src/Dispatch/Redis/Refines.antt =====
-- The Redis queue is three queues, one for each sign of the priority
-- (packages/dispatcher/stockstat_dispatcher/queue.py).
use stock_statistic.Common.{ℕ, zero, suc, ◌≡◌, ◌≢◌, none, some, List, [], ◌∷◌, ◌++◌, map}
use stock_statistic.Common.Text.{Text}
use stock_statistic.Common.Integer.{ℤ, pos, negsuc}
use stock_statistic.Protocol.Value.{Fields}
use stock_statistic.Protocol.Task.{TaskSpec, to_dict}
use stock_statistic.Protocol.RoundTrip.{sent_compute}
use stock_statistic.Dispatch.Redis.{
  Server, Coder, Taken, nothing, taken, Level, high, normal, low, key_of, redis_enqueue,
  redis_dequeue,
}

-- The list that the pushes of these entries on the left of an empty one give.
unfoldable pub pushed {ℓ} : {B : Type ℓ} → List B → List B
pushed [] = []
pushed (b ∷ bs) = pushed bs ++ b ∷ []

-- The documented behaviour of the commands; `contents` is the list at a key, from the left.
pub record IsDocumented {S B : Type 0} (srv : Server S B) (contents : Text → S → List B)
    : Type 0 where
  pub lpush_same : (k : Text) (b : B) (s : S) → contents k (srv.lpush k b s) ≡ b ∷ contents k s
  pub lpush_other :
      (k j : Text) (b : B) (s : S) → k ≢ j → contents j (srv.lpush k b s) ≡ contents j s
  pub rpop_empty : (k : Text) (s : S) → contents k s ≡ [] → srv.rpop k s ≡ (none, s)
  pub rpop_last :
      (k : Text) (s : S) (bs : List B) (b : B)
      → contents k s ≡ bs ++ b ∷ []
      → ((srv.rpop k s).0 ≡ some b) × (contents k (srv.rpop k s).1 ≡ bs)
  pub rpop_other : (k j : Text) (s : S) → k ≢ j → contents j (srv.rpop k s).1 ≡ contents j s

-- JSON and the texts of dates read back.
pub record Reads {B : Type 0} (coder : Coder B) : Type 0 where
  pub json : (d : Fields) → coder.loads (coder.dumps d) ≡ some d
  pub dates : (n : ℕ) → coder.runtime.fromisoformat (coder.runtime.isoformat n) ≡ some n

-- Three queues.
pub record Lanes : Type 0 where
  pub highs : List TaskSpec
  pub normals : List TaskSpec
  pub lows : List TaskSpec

abbrev pub add : Level → TaskSpec → Lanes → Lanes
add high s q = record q { highs = q.highs ++ s ∷ [] }
add normal s q = record q { normals = q.normals ++ s ∷ [] }
add low s q = record q { lows = q.lows ++ s ∷ [] }

-- A specification as it is received.
abbrev pub received : TaskSpec → TaskSpec
received s = record s { compute_spec = sent_compute s.compute_spec }

-- The oldest task of the first queue that has one.
abbrev pub first : Lanes → Taken × Lanes
first q = elim q.highs [
  | s ∷ ss ↦ (taken (received s), record q { highs = ss })
  | [] ↦ elim q.normals [
    | s ∷ ss ↦ (taken (received s), record q { normals = ss })
    | [] ↦ elim q.lows [ s ∷ ss ↦ (taken (received s), record q { lows = ss }) | [] ↦ (nothing, q) ]
  ]
]

-- The queue of a priority: the first below zero, the second at zero, the third above.
abbrev pub lane_of : ℤ → Level
lane_of (negsuc n) = high
lane_of (pos zero) = normal
lane_of (pos (suc n)) = low

-- A call on either queue.
pub data Call : Type 0 where
  enqueued : TaskSpec → Call
  dequeued : Call

unfoldable pub answers : List Call → Lanes → List Taken
answers [] q = []
answers (enqueued s ∷ cs) q = answers cs (add (lane_of s.dispatch_spec.priority) s q)
answers (dequeued ∷ cs) q = (first q).0 ∷ answers cs (first q).1

module _ {S B : Type 0} (srv : Server S B) (coder : Coder B) (queue_key : Text) where
  unfoldable pub redis_answers : List Call → S → List Taken
  redis_answers [] s = []
  redis_answers (enqueued spec ∷ cs) s = redis_answers cs (redis_enqueue srv coder queue_key spec s)
  redis_answers (dequeued ∷ cs) s =
      (redis_dequeue srv coder queue_key s).0
      ∷ redis_answers cs (redis_dequeue srv coder queue_key s).1

module _ {S B : Type 0} (srv : Server S B) (coder : Coder B) (queue_key : Text)
    (contents : Text → S → List B) (doc : IsDocumented srv contents) (reads : Reads coder) where
  abbrev entry_of : TaskSpec → B
  entry_of s = coder.dumps (to_dict coder.runtime s)

  -- The server's lists are the three queues.
  pub record Holds (q : Lanes) (s : S) : Type 0 where
    pub at_high : contents (key_of queue_key high) s ≡ pushed (map entry_of q.highs)
    pub at_normal : contents (key_of queue_key normal) s ≡ pushed (map entry_of q.normals)
    pub at_low : contents (key_of queue_key low) s ≡ pushed (map entry_of q.lows)

  -- `dequeue` answers as the three queues do, which the server goes on to hold.
  abbrev Answers : Lanes → Taken × S → Type 0
  Answers q r = (r.0 ≡ (first q).0) × Holds (first q).1 r.1
