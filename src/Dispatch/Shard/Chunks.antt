-- ===== src/Dispatch/Shard/Chunks.antt =====
-- What the slices of a grid search and of a list of symbols cover
-- (packages/dispatcher/stockstat_dispatcher/shard.py).
use stock_statistic.Common.{
  ℕ, zero, suc, ◌+◌, ◌≤◌, ◌<◌, ◌≡◌, refl, sym, ap, ◌∙◌, Option, some, List, [], ◌∷◌, ◌++◌, arith,
  map, leb, leb→le, Bool-cases, inl, inr,
}
use stock_statistic.Common.Lists.{length, take, drop, concat, take-append-drop, length-drop}
use mathlib.Core.Path.{ap₂}
use stock_statistic.Common.Text.{Text}
use stock_statistic.Common.Dict.{Dict, keys, values}
use stock_statistic.Protocol.Value.{Value, null}
use stock_statistic.Protocol.Task.{TaskSpec}
use stock_statistic.Dispatch.Shard.{
  chunks, chunk_size, workers_or_one, product, item, sub_grid, grid_slices, shard_grid, clone_slice,
  symbol_slices, shard_symbol_wise,
}

-- The chunks are consecutive parts of the list: together they are the list.
concat-chunks {ℓ} :
    {A : Type ℓ} (fuel size : ℕ) (xs : List A)
    → 0 < size
    → length xs ≤ fuel
    → concat (chunks fuel size xs) ≡ xs
unfolding chunks
concat-chunks zero size [] pos le = refl
concat-chunks zero size (x ∷ xs) pos le = absurd (omega arith)
concat-chunks (suc fuel) size [] pos le = refl
concat-chunks (suc fuel) size (x ∷ xs) pos le =
    ap (λ l. take size (x ∷ xs) ++ l)
      (concat-chunks fuel size (drop size (x ∷ xs)) pos (omega (arith, length-drop size (x ∷ xs))))
    ∙ take-append-drop size (x ∷ xs)

abbrev pub grid_of_slice : TaskSpec → Option (Dict (List Value))
grid_of_slice s = s.compute_spec.param_grid

grids-grid_slices :
    (spec : TaskSpec) (ks : List Text) (i : ℕ) (cs : List (List (List Value)))
    → map grid_of_slice (grid_slices spec ks i cs) ≡ map (λ c. some (sub_grid 0 ks c)) cs
unfolding grid_slices clone_slice
grids-grid_slices spec ks i [] = refl
grids-grid_slices spec ks i (c ∷ cs) =
    ap (λ l. some (sub_grid 0 ks c) ∷ l) (grids-grid_slices spec ks (i + 1) cs)

-- The first items of combinations, and what follows them.
abbrev pub first_of : List Value → Value
first_of [] = null
first_of (v ∷ vs) = v

abbrev pub after_first : List Value → List Value
after_first [] = []
after_first (v ∷ vs) = vs

-- The columns of combinations: under the first key their first items, and under the keys after it
-- the columns of what follows these.
abbrev pub columns : List Text → List (List Value) → Dict (List Value)
columns [] part = []
columns (k ∷ ks) part = (k, map first_of part) ∷ columns ks (map after_first part)

first_of-drop : (j : ℕ) (c : List Value) → item j c ≡ first_of (drop j c)
unfolding item
first_of-drop zero [] = refl
first_of-drop (suc j) [] = refl
first_of-drop zero (v ∷ vs) = refl
first_of-drop (suc j) (v ∷ vs) = first_of-drop j vs

after_first-drop : (j : ℕ) (c : List Value) → after_first (drop j c) ≡ drop (suc j) c
after_first-drop zero [] = refl
after_first-drop (suc j) [] = refl
after_first-drop zero (v ∷ vs) = refl
after_first-drop (suc j) (v ∷ vs) = after_first-drop j vs

firsts : (j : ℕ) (part : List (List Value)) → map (item j) part ≡ map first_of (map (drop j) part)
firsts j [] = refl
firsts j (c ∷ part) = ap₂ (λ v vs. v ∷ vs) (first_of-drop j c) (firsts j part)

afters :
    (j : ℕ) (part : List (List Value))
    → map after_first (map (drop j) part) ≡ map (drop (suc j)) part
afters j [] = refl
afters j (c ∷ part) = ap₂ (λ v vs. v ∷ vs) (after_first-drop j c) (afters j part)

sub_grid-columns :
    (j : ℕ) (ks : List Text) (part : List (List Value))
    → sub_grid j ks part ≡ columns ks (map (drop j) part)
unfolding sub_grid
sub_grid-columns j [] part = refl
sub_grid-columns j (k ∷ ks) part =
    ap₂ (λ column rest. (k, column) ∷ rest) (firsts j part)
      (ap (λ i. sub_grid i ks part) (omega arith)
        ∙ sub_grid-columns (suc j) ks part
        ∙ ap (columns ks) (sym (afters j part)))

all_dropped : (part : List (List Value)) → map (drop 0) part ≡ part
all_dropped [] = refl
all_dropped (c ∷ part) = ap (λ cs. c ∷ cs) (all_dropped part)

grids_columns :
    (ks : List Text) (parts : List (List (List Value)))
    → map (λ c. some (sub_grid 0 ks c)) parts ≡ map (λ c. some (columns ks c)) parts
grids_columns ks [] = refl
grids_columns ks (c ∷ parts) =
    ap₂ (λ g gs. some g ∷ gs) (sub_grid-columns 0 ks c ∙ ap (columns ks) (all_dropped c))
      (grids_columns ks parts)

chunk_size_pos : (total workers : ℕ) → 0 < chunk_size total workers
chunk_size_pos total workers = ground arith

-- The combinations of a grid, in the order of `itertools.product`.
abbrev pub combos : Dict (List Value) → List (List Value)
combos grid = product (values grid)

-- The division of the combinations of a grid among the slices.
pub record Division (spec : TaskSpec) (grid : Dict (List Value)) : Type 0 where
  pub parts : List (List (List Value))
  pub together : concat parts ≡ combos grid
  pub grids :
      map grid_of_slice (shard_grid spec grid) ≡ map (λ c. some (columns (keys grid) c)) parts

-- The slices of a grid search take consecutive parts of the combinations, which together are all
-- of them in order, and the grid of a slice has the columns of its part: under the first key the
-- first items of the combinations, under the next their second items, and so on.
pub shard_grid-Division : (spec : TaskSpec) (grid : Dict (List Value)) → Division spec grid
unfolding shard_grid
shard_grid-Division spec grid =
    let total = length (combos grid) in
    let size = chunk_size total (workers_or_one spec.dispatch_spec.max_workers) in
    record {
      parts = chunks total size (combos grid);
      together =
          concat-chunks total size (combos grid)
            (chunk_size_pos total (workers_or_one spec.dispatch_spec.max_workers)) (omega arith);
      grids =
          grids-grid_slices spec (keys grid) 0 (chunks total size (combos grid))
          ∙ grids_columns (keys grid) (chunks total size (combos grid));
    }

abbrev pub symbols_of : TaskSpec → List Text
symbols_of s = s.data_spec.symbols

symbols-symbol_slices :
    (spec : TaskSpec) (i : ℕ) (syms : List Text)
    → concat (map symbols_of (symbol_slices spec i syms)) ≡ syms
unfolding symbol_slices clone_slice
symbols-symbol_slices spec i [] = refl
symbols-symbol_slices spec i (sym ∷ syms) =
    ap (λ l. sym ∷ l) (symbols-symbol_slices spec (i + 1) syms)

length-symbol_slices :
    (spec : TaskSpec) (i : ℕ) (syms : List Text) → length (symbol_slices spec i syms) ≡ length syms
unfolding symbol_slices
length-symbol_slices spec i [] = refl
length-symbol_slices spec i (sym ∷ syms) = ap suc (length-symbol_slices spec (i + 1) syms)

-- A task of at least two symbols has a slice for each, and the slices ask together for exactly
-- the task's symbols, in order.
pub symbols-shard_symbol_wise :
    (spec : TaskSpec)
    → 2 ≤ length spec.data_spec.symbols
    → (concat (map symbols_of (shard_symbol_wise spec)) ≡ spec.data_spec.symbols)
      × (length (shard_symbol_wise spec) ≡ length spec.data_spec.symbols)
unfolding shard_symbol_wise
symbols-shard_symbol_wise spec h = elim (Bool-cases (leb (length spec.data_spec.symbols) 1)) [
  | inl few ↦ absurd (omega (arith, leb→le _ _ few))
  | inr more ↦ rw more (
    symbols-symbol_slices spec 0 spec.data_spec.symbols,
    length-symbol_slices spec 0 spec.data_spec.symbols,
  )
]
