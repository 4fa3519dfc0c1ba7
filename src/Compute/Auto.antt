-- ===== src/Compute/Auto.antt =====
-- AutoComputeBackend (packages/compute/stockstat_compute/backend/auto.py): the choice between the
-- local and the remote backend, with the estimate of a value's size
-- (packages/foundation/stockstat_foundation/utils/serialization.py).
pub mod Routed
pub mod DataDispatch
use stock_statistic.Common.{
  ℕ, ◌+◌, ◌*◌, Bool, true, false, Option, none, some, List, [], ◌∷◌, ltb, ◌==◌, if◌then◌else◌,
}
use stock_statistic.Common.Text.{Text, codes, text_eq, text_mem}
use stock_statistic.Common.Dict.{Dict, get, put}
use stock_statistic.Protocol.Value.{
  Value, null, bool, int, float, text, object, list, dict, Items, nil, cons, Fields, empty, field,
}
use stock_statistic.Protocol.Task.{TaskSpec}

-- The bytes of a code point in UTF-8.
abbrev utf8_width : ℕ → ℕ
utf8_width c = if ltb c 0x80 then 1 else if ltb c 0x800 then 2 else if ltb c 0x10000 then 3 else 4

-- `len(data.encode("utf-8"))`
unfoldable pub utf8_length : Text → ℕ
utf8_length [] = 0
utf8_length (c ∷ t) = utf8_width c + utf8_length t

-- `total or 1024`
abbrev or_kilo : ℕ → ℕ
or_kilo n = if n == 0 then 1024 else n

-- `memory` is what pandas or `sys.getsizeof` says of a value.
module _ (memory : Value → ℕ) where
  -- `_estimate_df_size`
  unfoldable pub item_size : Value → ℕ
  item_size null = 0
  item_size v = memory v

  unfoldable pub items_size : Items → ℕ
  items_size nil = 0
  items_size (cons v vs) = item_size v + items_size vs

  unfoldable pub inner_size : Fields → ℕ
  inner_size empty = 0
  inner_size (field k v d) = item_size v + inner_size d

  -- The size of a value of a dictionary: a nested dictionary is the sum of its values.
  abbrev value_size : Value → ℕ
  value_size (dict d) = inner_size d
  value_size v = item_size v

  unfoldable pub fields_size : Fields → ℕ
  unfolding inner_size item_size
  fields_size empty = 0
  fields_size (field k v d) = value_size v + fields_size d

  unfoldable pub estimate_data_size : Value → ℕ
  unfolding fields_size items_size item_size utf8_length
  estimate_data_size null = 0
  estimate_data_size (text t) = utf8_length t
  estimate_data_size (dict d) = or_kilo (fields_size d)
  estimate_data_size (list vs) = or_kilo (items_size vs)
  estimate_data_size v = item_size v

abbrev pub heavy_types : List Text
heavy_types =
    codes "grid_search"
    ∷ codes "batch_backtest"
    ∷ codes "monte_carlo"
    ∷ codes "bootstrap"
    ∷ codes "permutation_test"
    ∷ codes "walkforward"
    ∷ codes "walkforward_cv"
    ∷ codes "ml_train"
    ∷ codes "deep_learning"
    ∷ []

pub data Side : Type 0 where
  local remote : Side

-- The backends are known by their names; `threshold` is in bytes.
pub record AutoBackend : Type 0 where
  pub local_name : Text
  pub remote_name : Text
  pub threshold : ℕ
  pub routing : Dict Text

-- By the size of the inline data, where there is any.
abbrev by_size : (Value → ℕ) → ℕ → Option Value → Side
by_size memory threshold none = local
by_size memory threshold (some null) = local
by_size memory threshold (some v) =
    if ltb threshold (estimate_data_size memory v) then remote else local

unfoldable pub choose : (Value → ℕ) → AutoBackend → TaskSpec → Side
unfolding estimate_data_size
choose memory b spec =
    if text_mem spec.compute_spec.task_type heavy_types
    then remote
    else by_size memory b.threshold (get (codes "_inline_data") spec.compute_spec.params)

abbrev pub name_of : AutoBackend → Side → Text
name_of b local = b.local_name
name_of b remote = b.remote_name

-- `submit` notes the name of the backend that it hands the task to.
unfoldable pub submit : (Value → ℕ) → TaskSpec → AutoBackend → Side × AutoBackend
unfolding choose
submit memory spec b =
    let side = choose memory b spec in
    (side, record b { routing = put spec.task_id (name_of b side) b.routing })

abbrev pub side_of : Text → Side
side_of name = if text_eq name (codes "local") then local else remote

-- `_route`, where `get`, `result`, `wait`, `cancel` and `stream_results` are handed to.
unfoldable pub route : Text → AutoBackend → Side
route task_id b = elim (get task_id b.routing) [ none ↦ local | some name ↦ side_of name ]

-- `cluster_info`, from the answers of the two backends; `none` is an exception.
unfoldable pub cluster_info {ℓ} : {A : Type ℓ} → (remote_answer local_answer : Option A) → Option A
cluster_info (some a) local_answer = some a
cluster_info none local_answer = local_answer
