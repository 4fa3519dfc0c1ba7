-- ===== src/Compute/Remote/Wait.antt =====
-- `wait` of the remote backend ends (packages/compute/stockstat_compute/backend/remote.py).
use stock_statistic.Common.{ℕ, zero, suc, ◌+◌, ◌≤◌, ◌≡◌, ◌⊎◌, Option, some, List, [], ◌∷◌}
use stock_statistic.Protocol.Value.{Value}
use stock_statistic.Compute.Local.{Answer, timed_out}
use stock_statistic.Compute.Remote.{Seen, answer_of}

-- The clock is read first at or after `t`, and later at least `interval` after the reading before.
abbrev pub IsTicking : (interval t : ℕ) → List Seen → Type 0
IsTicking interval t [] = Unit
IsTicking interval t (s ∷ ss) = (t ≤ s.now) × IsTicking interval (s.now + interval) ss

-- The time that `n` sleeps take.
abbrev pub slept : (n interval : ℕ) → ℕ
slept zero interval = 0
slept (suc n) interval = interval + slept n interval

-- One of the rounds calls for the answer.
abbrev pub Called : Answer Value → Answer Value → List Seen → Type 0
Called result a [] = ⊥
Called result a (s ∷ ss) = (answer_of result s.info ≡ some a) ⊎ Called result a ss

-- The loop has ended, at its deadline or with the answer that a round calls for.
pub record Ended (result : Answer Value) (ss : List Seen) (o : Option (Answer Value)) : Type 0 where
  pub answer : Answer Value
  pub given : o ≡ some answer
  pub called : (answer ≡ timed_out) ⊎ Called result answer ss
