-- ===== src/Dispatch/Shard/MonteCarlo.antt =====
-- How the simulations of a Monte Carlo task are divided
-- (packages/dispatcher/stockstat_dispatcher/shard.py).
use native.Mathlib.Nat.{div-add-mod, div-eq_of_lt, mod-lt}
use stock_statistic.Common.{
  ℕ, zero, suc, ◌+◌, ◌*◌, ◌/◌, ◌%◌, ◌≤◌, ◌<◌, ◌≡◌, refl, ap, Option, none, some, List, [], ◌∷◌,
  arith, min, leb, leb→le, Bool-cases, inl, inr,
}
use stock_statistic.Common.Sum.{sum_by}
use stock_statistic.Protocol.Task.{TaskSpec}
use stock_statistic.Dispatch.Shard.{
  chunk_size, workers_or_one, clone_slice, simulation_slices, shard_monte_carlo,
}

abbrev pub simulations : TaskSpec → ℕ
simulations s = s.compute_spec.n_simulations

-- The end of the last of `left` ranges of `size`, from number `i` on.
next_end : (i size left : ℕ) → (i + 1 + left) * size ≡ (i + suc left) * size
next_end i size left = ap (λ (k : ℕ). k * size) (omega arith)

later_end : (i size left : ℕ) → (i + left) * size ≡ i * size + left * size
later_end i size left = omega arith

sum-simulation_slices :
    (spec : TaskSpec) (size i left : ℕ)
    → sum_by simulations (simulation_slices spec size i left) + min (i * size) (simulations spec)
      ≡ min ((i + left) * size) (simulations spec)
unfolding simulation_slices clone_slice
sum-simulation_slices spec size i zero = omega arith
sum-simulation_slices spec size i (suc left) =
    elim (Bool-cases (leb (simulations spec) (i * size))) [
      | inl past ↦ rw past (omega (arith, leb→le _ _ past, later_end i size (suc left)))
      | inr before ↦ rw before (
          ground (
            arith,
            before,
            sum-simulation_slices spec size (i + 1) left,
            later_end i size (suc left),
            later_end i size 1,
            later_end (i + 1) size left,
          ))
    ]

abbrev pub places : TaskSpec → ℕ
places spec = workers_or_one spec.dispatch_spec.max_workers

-- The slices of a Monte Carlo task run together as many simulations as there are chunks of equal
-- size for each worker, and never more than the task asks for.
pub sum-shard_monte_carlo :
    (spec : TaskSpec)
    → sum_by simulations (shard_monte_carlo spec)
      ≡ min (places spec * chunk_size (simulations spec) (places spec)) (simulations spec)
unfolding shard_monte_carlo
sum-shard_monte_carlo spec = omega (
  arith,
  sum-simulation_slices spec (chunk_size (simulations spec) (places spec)) 0 (places spec),
)

places_pos : (m : Option ℕ) → 0 < workers_or_one m
places_pos none = omega arith
places_pos (some zero) = omega arith
places_pos (some (suc n)) = omega arith

quotient_pos : (n w : ℕ) → 0 < w → w ≤ n → 1 ≤ n / w
quotient_pos n w p h = ground (arith, div-add-mod n w, mod-lt n p)

chunk_size_large : (n w : ℕ) → 0 < w → w ≤ n → chunk_size n w ≡ n / w
chunk_size_large n w p h = ground (arith, quotient_pos n w p h)

chunk_size_small : (n w : ℕ) → n < w → chunk_size n w ≡ 1
chunk_size_small n w h = ground (arith, div-eq_of_lt h)

-- A Monte Carlo task of at least as many simulations as workers loses the remainder: its slices
-- run `n % workers` simulations fewer than it asks for.
pub shard_monte_carlo_loses :
    (spec : TaskSpec)
    → places spec ≤ simulations spec
    → sum_by simulations (shard_monte_carlo spec) + simulations spec % places spec
      ≡ simulations spec
shard_monte_carlo_loses spec h =
    let n = simulations spec in
    let w = places spec in
    let p = places_pos spec.dispatch_spec.max_workers in
    omega (
      arith,
      sum-shard_monte_carlo spec,
      ap (λ (k : ℕ). w * k) (chunk_size_large n w p h),
      div-add-mod n w,
    )

-- One of fewer simulations than workers runs them all.
pub shard_monte_carlo_few :
    (spec : TaskSpec)
    → simulations spec < places spec
    → sum_by simulations (shard_monte_carlo spec) ≡ simulations spec
shard_monte_carlo_few spec h =
    let w = places spec in
    omega (
      arith,
      sum-shard_monte_carlo spec,
      ap (λ (k : ℕ). w * k) (chunk_size_small (simulations spec) w h),
    )

-- Each slice takes its seeds where the slice before it stopped.
abbrev pub IsContiguous : ℕ → List TaskSpec → Type 0
IsContiguous start [] = Unit
IsContiguous start (s ∷ ss) =
    (s.compute_spec.seed ≡ start) × IsContiguous (start + simulations s) ss

past_end :
    (spec : TaskSpec) (size i left : ℕ)
    → simulations spec ≤ i * size
    → simulation_slices spec size i left ≡ []
unfolding simulation_slices
past_end spec size i zero h = refl
past_end spec size i (suc left) h = ground arith

IsContiguous-slices :
    (spec : TaskSpec) (size i left start : ℕ)
    → start ≡ spec.compute_spec.seed + min (i * size) (simulations spec)
    → IsContiguous start (simulation_slices spec size i left)
unfolding simulation_slices clone_slice
IsContiguous-slices spec size i zero start h = tt
IsContiguous-slices spec size i (suc left) start h =
    elim (Bool-cases (leb (simulations spec) (i * size))) [
      | inl past ↦ rw past tt
      | inr before ↦ rw before (
        ground (arith, before, h),
        IsContiguous-slices spec size (i + 1) left _
            (ground (arith, before, h, later_end i size 1)),
      )
    ]

-- The slices of a Monte Carlo task take consecutive ranges of seeds, from the task's seed on.
pub shard_monte_carlo-IsContiguous :
    (spec : TaskSpec) → IsContiguous spec.compute_spec.seed (shard_monte_carlo spec)
unfolding shard_monte_carlo
shard_monte_carlo-IsContiguous spec =
    IsContiguous-slices spec (chunk_size (simulations spec) (places spec)) 0 (places spec)
      spec.compute_spec.seed (omega arith)
