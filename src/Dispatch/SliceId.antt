-- ===== src/Dispatch/SliceId.antt =====
-- The ids of slices, `f"{task_id}-s{i}"` (packages/dispatcher/stockstat_dispatcher/shard.py), and
-- the way back, `slice_id.rsplit("-s", 1)[0] if "-s" in slice_id else slice_id`
-- (packages/dispatcher/stockstat_dispatcher/core.py).
pub mod Parent
use stock_statistic.Common.{
  ℕ, zero, suc, ◌+◌, ◌/◌, ◌%◌, Bool, Option, none, some, List, [], ◌∷◌, ◌++◌, ltb, if◌then◌else◌,
}
use stock_statistic.Common.Text.{Text, codes, starts_with}

-- `str(n)`; the fuel `n` is enough.
unfoldable pub digits : ℕ → ℕ → Text
digits zero n = (48 + n % 10) ∷ []
digits (suc fuel) n =
    let rest = digits fuel (n / 10) ++ (48 + n % 10) ∷ [] in
    if ltb n 10 then (48 + n) ∷ [] else rest

unfoldable pub decimal : ℕ → Text
unfolding digits
decimal n = digits n n

abbrev pub mark : Text
mark = codes "-s"

unfoldable pub slice_id : Text → ℕ → Text
unfolding decimal
slice_id task_id i = task_id ++ (mark ++ decimal i)

-- What stands before the last "-s".
unfoldable pub before_last : Text → Option Text
before_last [] = none
before_last (c ∷ t) = elim (before_last t) [
  | some p ↦ some (c ∷ p)
  | none ↦ if starts_with (c ∷ t) mark then some [] else none
]

unfoldable pub parent_id : Text → Text
unfolding before_last
parent_id t = elim (before_last t) [ none ↦ t | some p ↦ p ]
