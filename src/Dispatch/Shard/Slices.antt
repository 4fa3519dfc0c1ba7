-- ===== src/Dispatch/Shard/Slices.antt =====
-- Every slice belongs to its task (packages/dispatcher/stockstat_dispatcher/shard.py): the
-- dispatcher finds the task again from the slice's id alone.
use stock_statistic.Common.{
  ℕ, zero, suc, ◌+◌, ◌*◌, ◌≡◌, refl, ◌⊎◌, inl, inr, Bool, true, false, Option, none, some, List, [],
  ◌∷◌, leb, if◌then◌else◌, Bool-cases,
}
use stock_statistic.Common.Lists.{length}
use stock_statistic.Common.Text.{Text, text_eq, codes}
use stock_statistic.Common.Dict.{Dict}
use stock_statistic.Protocol.Value.{Value}
use stock_statistic.Protocol.Task.{TaskSpec}
use stock_statistic.Dispatch.SliceId.{slice_id, parent_id}
use stock_statistic.Dispatch.SliceId.Parent.{parent_id-slice_id}
use stock_statistic.Dispatch.Shard.{
  clone_slice, grid_slices, batch_slices, simulation_slices, symbol_slices, shard_grid, shard_batch,
  shard_monte_carlo, shard_param_wise, shard_symbol_wise, shard_time_wise, shard_task,
}

-- Slice number `i` of a task: its id leads back to the task, and it is dispatched, traced and
-- computed as the task is.
pub record IsSlice (spec : TaskSpec) (i : ℕ) (s : TaskSpec) : Type 0 where
  pub named : s.task_id ≡ slice_id spec.task_id i
  pub parent : parent_id s.task_id ≡ spec.task_id
  pub dispatched : s.dispatch_spec ≡ spec.dispatch_spec
  pub traced : s.trace_id ≡ spec.trace_id
  pub computed : s.compute_spec.task_type ≡ spec.compute_spec.task_type

-- The slices, numbered from `i` on.
abbrev pub AreSlices : TaskSpec → ℕ → List TaskSpec → Type 0
AreSlices spec i [] = Unit
AreSlices spec i (s ∷ ss) = IsSlice spec i s × AreSlices spec (i + 1) ss

module _ (spec : TaskSpec) where
  -- What a call of `_clone_slice` gives, whatever fields of the data or the computation it
  -- overrides.
  slice :
      (i : ℕ) (s : TaskSpec)
      → s.task_id ≡ slice_id spec.task_id i
      → s.dispatch_spec ≡ spec.dispatch_spec
      → s.trace_id ≡ spec.trace_id
      → s.compute_spec.task_type ≡ spec.compute_spec.task_type
      → IsSlice spec i s
  slice i s named dispatched traced computed = record {
    named = named;
    parent = rw named (parent_id-slice_id spec.task_id i);
    dispatched = dispatched;
    traced = traced;
    computed = computed;
  }

  grid_slices-AreSlices :
      (ks : List Text) (i : ℕ) (cs : List (List (List Value)))
      → AreSlices spec i (grid_slices spec ks i cs)
  unfolding grid_slices clone_slice
  grid_slices-AreSlices ks i [] = tt
  grid_slices-AreSlices ks i (c ∷ cs) =
      (slice i _ refl refl refl refl, grid_slices-AreSlices ks (i + 1) cs)

  batch_slices-AreSlices :
      (set_order : List Text → List Text) (all : Dict Value) (i : ℕ)
      (cs : List (List (Text × Option Text)))
      → AreSlices spec i (batch_slices set_order spec all i cs)
  unfolding batch_slices clone_slice
  batch_slices-AreSlices set_order all i [] = tt
  batch_slices-AreSlices set_order all i (c ∷ cs) =
      (slice i _ refl refl refl refl, batch_slices-AreSlices set_order all (i + 1) cs)

  symbol_slices-AreSlices :
      (i : ℕ) (syms : List Text) → AreSlices spec i (symbol_slices spec i syms)
  unfolding symbol_slices clone_slice
  symbol_slices-AreSlices i [] = tt
  symbol_slices-AreSlices i (sym ∷ syms) =
      (slice i _ refl refl refl refl, symbol_slices-AreSlices (i + 1) syms)

  simulation_slices-AreSlices :
      (size i left : ℕ) → AreSlices spec i (simulation_slices spec size i left)
  unfolding simulation_slices clone_slice
  simulation_slices-AreSlices size i zero = tt
  simulation_slices-AreSlices size i (suc left) =
      elim (Bool-cases (leb spec.compute_spec.n_simulations (i * size))) [
        | inl past ↦ rw past tt
        | inr before ↦
            rw before (slice i _ refl refl refl refl, simulation_slices-AreSlices size (i + 1) left)
      ]

  -- The task is not divided, or these are its slices.
  abbrev pub IsSharded : List TaskSpec → Type 0
  IsSharded ss = (ss ≡ spec ∷ []) ⊎ AreSlices spec 0 ss

  if_IsSharded :
      (b : Bool) (xs ys : List TaskSpec)
      → IsSharded xs
      → IsSharded ys
      → IsSharded (if b then xs else ys)
  if_IsSharded true xs ys h k = h
  if_IsSharded false xs ys h k = k

  whole : IsSharded (spec ∷ [])
  whole = inl refl

  shard_grid-IsSharded : (grid : Dict (List Value)) → IsSharded (shard_grid spec grid)
  unfolding shard_grid
  shard_grid-IsSharded grid = inr (grid_slices-AreSlices _ 0 _)

  shard_batch-IsSharded :
      (set_order : List Text → List Text) (all : Dict Value)
      → IsSharded (shard_batch set_order spec all)
  unfolding shard_batch
  shard_batch-IsSharded set_order all = inr (batch_slices-AreSlices set_order all 0 _)

  shard_monte_carlo-IsSharded : IsSharded (shard_monte_carlo spec)
  unfolding shard_monte_carlo
  shard_monte_carlo-IsSharded = inr (simulation_slices-AreSlices _ 0 _)

  shard_symbol_wise-IsSharded : IsSharded (shard_symbol_wise spec)
  unfolding shard_symbol_wise
  shard_symbol_wise-IsSharded =
      if_IsSharded (leb (length spec.data_spec.symbols) 1) _ _ whole
        (inr (symbol_slices-AreSlices 0 spec.data_spec.symbols))

  -- A division that is made where a field of the specification is given.
  given-IsSharded {ℓ} :
      {A : Type ℓ} (o : Option A) (xs : List TaskSpec) (f : A → List TaskSpec)
      → IsSharded xs
      → ((a : A) → IsSharded (f a))
      → IsSharded (elim o [ none ↦ xs | some a ↦ f a ])
  given-IsSharded none xs f h k = h
  given-IsSharded (some a) xs f h k = k a

  shard_param_wise-IsSharded :
      (set_order : List Text → List Text) → IsSharded (shard_param_wise set_order spec)
  unfolding shard_param_wise
  shard_param_wise-IsSharded set_order =
      let rest =
        if_IsSharded (text_eq spec.compute_spec.task_type (codes "monte_carlo")) _ _
          shard_monte_carlo-IsSharded whole in
      let batch =
        if_IsSharded (text_eq spec.compute_spec.task_type (codes "batch_backtest")) _ _
          (given-IsSharded _ _ _ rest (shard_batch-IsSharded set_order)) rest in
      if_IsSharded (text_eq spec.compute_spec.task_type (codes "grid_search")) _ _
        (given-IsSharded _ _ _ batch shard_grid-IsSharded) batch

-- Whatever the strategy and the kind of task, `shard_task` gives the task alone, or slices
-- numbered from 0 whose ids lead back to the task and which keep its kind, its trace and the way
-- in which it is dispatched.
pub shard_task-IsSharded :
    (set_order : List Text → List Text) (spec : TaskSpec)
    → IsSharded spec (shard_task set_order spec)
unfolding shard_task shard_time_wise
shard_task-IsSharded set_order spec = if_IsSharded spec _ _ _ (whole spec) (
    if_IsSharded spec _ _ _ (shard_param_wise-IsSharded spec set_order) (
      if_IsSharded spec _ _ _ (shard_symbol_wise-IsSharded spec)
        (if_IsSharded spec _ _ _ (whole spec) (whole spec))))
