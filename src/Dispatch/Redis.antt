-- ===== src/Dispatch/Redis.antt =====
-- RedisTaskQueue (packages/dispatcher/stockstat_dispatcher/queue.py), for calls that do not block,
-- over a server's list commands.
pub mod Refines
use stock_statistic.Common.{
  ℕ, ◌+◌, Bool, true, false, Option, none, some, List, [], ◌∷◌, ◌++◌, if◌then◌else◌,
}
use stock_statistic.Common.Integer.{ℤ, pos, negsuc, ltb_ℤ}
use stock_statistic.Common.Text.{Text, codes}
use stock_statistic.Protocol.Value.{Fields}
use stock_statistic.Protocol.Task.{Runtime, TaskSpec, to_dict}
use stock_statistic.Protocol.Decode.{from_dict}

-- The commands of a Redis server of state `S` that the queue calls; `B` are its byte strings.
pub record Server (S B : Type 0) : Type 0 where
  pub lpush : Text → B → S → S
  pub rpop : Text → S → Option B × S
  pub llen : Text → S → ℕ
  pub delete : Text → S → S

-- The JSON codec and the runtime.
pub record Coder (B : Type 0) : Type 0 where
  pub runtime : Runtime
  pub dumps : Fields → B
  pub loads : B → Option Fields

-- What `dequeue` gives; `unreadable` is an entry that is not the JSON of a specification.
pub data Taken : Type 0 where
  nothing unreadable : Taken
  taken : TaskSpec → Taken

pub data Level : Type 0 where
  high normal low : Level

abbrev pub level_of : ℤ → Level
level_of z = if ltb_ℤ z (pos 0) then high else if ltb_ℤ (pos 0) z then low else normal

abbrev pub key_of : Text → Level → Text
key_of queue_key high = queue_key ++ codes ":high"
key_of queue_key normal = queue_key ++ codes ":normal"
key_of queue_key low = queue_key ++ codes ":low"

abbrev pub read_entry : {B : Type 0} → Coder B → B → Taken
read_entry coder bytes = elim (coder.loads bytes) [
  | none ↦ unreadable
  | some d ↦ elim (from_dict coder.runtime d) [ none ↦ unreadable | some spec ↦ taken spec ]
]

module _ {S B : Type 0} (srv : Server S B) (coder : Coder B) (queue_key : Text) where
  unfoldable pub redis_enqueue : TaskSpec → S → S
  redis_enqueue spec s =
      srv.lpush (key_of queue_key (level_of spec.dispatch_spec.priority))
        (coder.dumps (to_dict coder.runtime spec)) s

  -- The loop over the keys.
  unfoldable pub take_first : List Level → S → Taken × S
  take_first [] s = (nothing, s)
  take_first (l ∷ ls) s =
      let (popped, s') = srv.rpop (key_of queue_key l) s in
      let rest = take_first ls s' in
      elim popped [ none ↦ rest | some bytes ↦ (read_entry coder bytes, s') ]

  unfoldable pub redis_dequeue : S → Taken × S
  unfolding take_first
  redis_dequeue s = take_first (high ∷ normal ∷ low ∷ []) s

  unfoldable pub redis_size : S → ℕ
  redis_size s =
      srv.llen (key_of queue_key high) s
      + (srv.llen (key_of queue_key normal) s + srv.llen (key_of queue_key low) s)

  unfoldable pub redis_clear : S → S
  redis_clear s =
      srv.delete (key_of queue_key low)
        (srv.delete (key_of queue_key normal) (srv.delete (key_of queue_key high) s))
