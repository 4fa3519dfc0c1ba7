-- ===== src/Dispatch/Shard.antt =====
-- shard_task (packages/dispatcher/stockstat_dispatcher/shard.py). A slice is a copy of the task's
-- specification with another id and some fields overridden.
pub mod Chunks
pub mod MonteCarlo
pub mod Slices
use stock_statistic.Common.{
  ℕ, zero, suc, ◌+◌, ◌-◌, ◌*◌, ◌/◌, Bool, true, false, ◌||◌, Option, none, some, List, [], ◌∷◌,
  ◌++◌, leb, if◌then◌else◌, map, min, ◌==◌,
}
use stock_statistic.Common.Lists.{length, take, drop}
use stock_statistic.Common.Text.{Text, text_eq, text_mem, codes}
use stock_statistic.Common.Dict.{Dict, get, put, keys, values}
use stock_statistic.Protocol.Value.{Value, null}
use stock_statistic.Protocol.Task.{DataSpec, DispatchSpec, ComputeSpec, TaskSpec}
use stock_statistic.Dispatch.SliceId.{slice_id}

-- The keyword arguments of `_clone_slice`.
pub data Override : Type 0 where
  data_spec : DataSpec → Override
  param_grid : Dict (List Value) → Override
  strategies : Dict Value → Override
  fee_models : Option (List Text) → Override
  n_simulations : ℕ → Override
  seed : ℕ → Override

abbrev in_compute : (ComputeSpec → ComputeSpec) → TaskSpec → TaskSpec
in_compute f s = record s { compute_spec = f s.compute_spec }

unfoldable pub override : TaskSpec → Override → TaskSpec
override s (data_spec d) = record s { data_spec = d }
override s (param_grid g) = in_compute (λ c. record c { param_grid = some g }) s
override s (strategies m) = in_compute (λ c. record c { strategies = some m }) s
override s (fee_models f) = in_compute (λ c. record c { fee_models = f }) s
override s (n_simulations n) = in_compute (λ c. record c { n_simulations = n }) s
override s (seed n) = in_compute (λ c. record c { seed = n }) s

unfoldable pub overrides : TaskSpec → List Override → TaskSpec
unfolding override
overrides s [] = s
overrides s (o ∷ os) = overrides (override s o) os

-- `_clone_slice(spec, f"-s{i}", ...)`
unfoldable pub clone_slice : TaskSpec → ℕ → List Override → TaskSpec
unfolding overrides
clone_slice spec i os = overrides (record spec { task_id = slice_id spec.task_id i }) os

-- `max_workers or 1`
abbrev pub workers_or_one : Option ℕ → ℕ
workers_or_one none = 1
workers_or_one (some zero) = 1
workers_or_one (some (suc n)) = suc n

-- `max(1, total // max_workers)`
abbrev pub chunk_size : ℕ → ℕ → ℕ
chunk_size total workers = if leb 1 (total / workers) then total / workers else 1

-- `[xs[i:i + size] for i in range(0, len(xs), size)]`, on fuel: the length is enough.
unfoldable pub chunks {ℓ} : {A : Type ℓ} → ℕ → ℕ → List A → List (List A)
chunks zero size xs = []
chunks (suc fuel) size [] = []
chunks (suc fuel) size (x ∷ xs) = take size (x ∷ xs) ∷ chunks fuel size (drop size (x ∷ xs))

-- `itertools.product(*values)`
unfoldable pub prepend : List Value → List (List Value) → List (List Value)
prepend [] combos = []
prepend (v ∷ vs) combos = map (λ c. v ∷ c) combos ++ prepend vs combos

unfoldable pub product : List (List Value) → List (List Value)
unfolding prepend
product [] = [] ∷ []
product (vs ∷ vss) = prepend vs (product vss)

-- `combo[j]`; every combination has an item for each key.
unfoldable pub item : ℕ → List Value → Value
item j [] = null
item zero (v ∷ vs) = v
item (suc j) (v ∷ vs) = item j vs

-- `{k: [combo[j] for combo in chunk] for j, k in enumerate(keys)}`, from `j` on
unfoldable pub sub_grid : ℕ → List Text → List (List Value) → Dict (List Value)
unfolding item
sub_grid j [] chunk = []
sub_grid j (k ∷ ks) chunk = (k, map (item j) chunk) ∷ sub_grid (j + 1) ks chunk

-- `for i, chunk in enumerate(chunks)`, from `i` on
unfoldable pub grid_slices : TaskSpec → List Text → ℕ → List (List (List Value)) → List TaskSpec
unfolding clone_slice
grid_slices spec ks i [] = []
grid_slices spec ks i (chunk ∷ rest) =
    clone_slice spec i (param_grid (sub_grid 0 ks chunk) ∷ []) ∷ grid_slices spec ks (i + 1) rest

unfoldable pub shard_grid : TaskSpec → Dict (List Value) → List TaskSpec
unfolding grid_slices
shard_grid spec grid =
    let combos = product (values grid) in
    let size = chunk_size (length combos) (workers_or_one spec.dispatch_spec.max_workers) in
    grid_slices spec (keys grid) 0 (chunks (length combos) size combos)

-- `[(s, f) for s in strategies for f in fee_models]`; `None` stands for no fee model.
unfoldable pub pairs : List Text → List (Option Text) → List (Text × Option Text)
pairs [] fees = []
pairs (s ∷ ss) fees = map (λ (f : Option Text). (s, f)) fees ++ pairs ss fees

-- `fee_models or [None]`
abbrev fees_or_none : Option (List Text) → List (Option Text)
fees_or_none none = none ∷ []
fees_or_none (some []) = none ∷ []
fees_or_none (some (f ∷ fs)) = map some (f ∷ fs)

-- `{name: strategies[name] for (name, _) in chunk}`; every name is a key.
unfoldable pub named : Dict Value → Dict Value → List (Text × Option Text) → Dict Value
named all done [] = done
named all done ((name, f) ∷ rest) = elim (get name all) [
  | none ↦ named all done rest
  | some v ↦ named all (put name v done) rest
]

-- The elements of `set(f for _, f in chunk if f is not None)`.
unfoldable pub fee_set : List (Text × Option Text) → List Text
fee_set [] = []
fee_set ((name, none) ∷ rest) = fee_set rest
fee_set ((name, some f) ∷ rest) = let fs = fee_set rest in if text_mem f fs then fs else f ∷ fs

-- `fees or None`
abbrev list_or_none : List Text → Option (List Text)
list_or_none [] = none
list_or_none (f ∷ fs) = some (f ∷ fs)

-- `set_order` stands for the order in which Python lists a set.
unfoldable pub batch_slices :
    (List Text → List Text)
    → TaskSpec
    → Dict Value
    → ℕ
    → List (List (Text × Option Text))
    → List TaskSpec
unfolding clone_slice
batch_slices set_order spec all i [] = []
batch_slices set_order spec all i (chunk ∷ rest) =
    clone_slice spec i
      (strategies (named all [] chunk) ∷ fee_models (list_or_none (set_order (fee_set chunk))) ∷ [])
    ∷ batch_slices set_order spec all (i + 1) rest

unfoldable pub shard_batch : (List Text → List Text) → TaskSpec → Dict Value → List TaskSpec
unfolding batch_slices
shard_batch set_order spec all =
    let combos = pairs (keys all) (fees_or_none spec.compute_spec.fee_models) in
    let size = chunk_size (length combos) (workers_or_one spec.dispatch_spec.max_workers) in
    batch_slices set_order spec all 0 (chunks (length combos) size combos)

-- `for i in range(max_workers)` from `i` on, with `left` rounds left; it breaks at `start >= n`.
unfoldable pub simulation_slices : TaskSpec → ℕ → ℕ → ℕ → List TaskSpec
unfolding clone_slice
simulation_slices spec size i zero = []
simulation_slices spec size i (suc left) =
    let n = spec.compute_spec.n_simulations in
    let start : ℕ = i * size in
    let stop : ℕ = min (start + size) n in
    let rest = simulation_slices spec size (i + 1) left in
    if leb n start
    then []
    else (clone_slice spec i
          (n_simulations (stop - start) ∷ seed (spec.compute_spec.seed + start) ∷ [])
        ∷ rest)

unfoldable pub shard_monte_carlo : TaskSpec → List TaskSpec
unfolding simulation_slices
shard_monte_carlo spec =
    let workers = workers_or_one spec.dispatch_spec.max_workers in
    simulation_slices spec (chunk_size spec.compute_spec.n_simulations workers) 0 workers

-- A dictionary that is given and not empty.
abbrev given {ℓ} : {V : Type ℓ} → Option (Dict V) → Option (Dict V)
given none = none
given (some []) = none
given (some (e ∷ d)) = some (e ∷ d)

unfoldable pub shard_param_wise : (List Text → List Text) → TaskSpec → List TaskSpec
unfolding shard_grid shard_batch shard_monte_carlo
shard_param_wise set_order spec =
    let cs = spec.compute_spec in
    let rest =
      if text_eq cs.task_type (codes "monte_carlo") then shard_monte_carlo spec else spec ∷ [] in
    let batch =
      if text_eq cs.task_type (codes "batch_backtest")
      then (elim (given cs.strategies) [ none ↦ rest | some all ↦ shard_batch set_order spec all ])
      else rest in
    if text_eq cs.task_type (codes "grid_search")
    then (elim (given cs.param_grid) [ none ↦ batch | some grid ↦ shard_grid spec grid ])
    else batch

unfoldable pub symbol_slices : TaskSpec → ℕ → List Text → List TaskSpec
unfolding clone_slice
symbol_slices spec i [] = []
symbol_slices spec i (sym ∷ syms) =
    clone_slice spec i (data_spec (record spec.data_spec { symbols = sym ∷ [] }) ∷ [])
    ∷ symbol_slices spec (i + 1) syms

unfoldable pub shard_symbol_wise : TaskSpec → List TaskSpec
unfolding symbol_slices
shard_symbol_wise spec =
    if leb (length spec.data_spec.symbols) 1
    then spec ∷ []
    else symbol_slices spec 0 spec.data_spec.symbols

-- Not sharded yet.
unfoldable pub shard_time_wise : TaskSpec → List TaskSpec
shard_time_wise spec = spec ∷ []

unfoldable pub shard_task : (List Text → List Text) → TaskSpec → List TaskSpec
unfolding shard_param_wise shard_symbol_wise shard_time_wise
shard_task set_order spec =
    let strategy = spec.dispatch_spec.split_strategy in
    if text_eq strategy (codes "none") || text_eq strategy (codes "auto") || text_eq strategy []
    then spec ∷ []
    else if text_eq strategy (codes "param_wise")
    then shard_param_wise set_order spec
    else if text_eq strategy (codes "symbol_wise")
    then shard_symbol_wise spec
    else if text_eq strategy (codes "time_wise")
    then shard_time_wise spec
    else spec ∷ []
