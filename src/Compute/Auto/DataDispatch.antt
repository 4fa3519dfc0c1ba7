-- ===== src/Compute/Auto/DataDispatch.antt =====
-- How data is handed to workers, by its size
-- (packages/foundation/stockstat_foundation/utils/serialization.py).
use stock_statistic.Common.{
  ℕ, ◌*◌, ◌≤◌, ◌<◌, ◌≡◌, ◌↔◌, Bool, true, false, ◌&&◌, [], ◌∷◌, ltb, if◌then◌else◌, arith,
}
use stock_statistic.Common.Text.{Text, codes, text_eq}

abbrev pub small_threshold : ℕ
small_threshold = 10 * 1024 * 1024

abbrev pub large_threshold : ℕ
large_threshold = 100 * 1024 * 1024

pub data Way : Type 0 where
  inline shared_memory storage_ref stream : Way

abbrev pub way_text : Way → Text
way_text inline = codes "inline"
way_text shared_memory = codes "shared_memory"
way_text storage_ref = codes "storage_ref"
way_text stream = codes "stream"

unfoldable pub choose_data_dispatch : (size : ℕ) (same_host reach_storage : Bool) → Way
choose_data_dispatch size same_host reach_storage =
    if ltb size small_threshold
    then inline
    else if same_host
    then shared_memory
    else if ltb large_threshold size && reach_storage
    then storage_ref
    else stream

abbrev is_auto : Text → Bool
is_auto [] = true
is_auto (c ∷ t) = text_eq (c ∷ t) (codes "auto")

unfoldable pub resolve_data_dispatch : Text → (size : ℕ) (same_host reach_storage : Bool) → Text
unfolding choose_data_dispatch
resolve_data_dispatch wanted size same_host reach_storage =
    if is_auto wanted then way_text (choose_data_dispatch size same_host reach_storage) else wanted

-- When each way is chosen.
pub record IsChosen (size : ℕ) (same_host reach_storage : Bool) (way : Way) : Type 0 where
  pub by_value : (way ≡ inline) ↔ (size < small_threshold)
  pub by_memory : (way ≡ shared_memory) ↔ ((small_threshold ≤ size) × (same_host ≡ true))
  pub by_reference :
      (way ≡ storage_ref)
      ↔ ((large_threshold < size) × ((same_host ≡ false) × (reach_storage ≡ true)))

-- Data below ten mebibytes and no other is sent inline; of the rest, that for workers on the same
-- host goes through shared memory, and only data above a hundred mebibytes, for other workers that
-- reach the storage, goes by reference.
pub choose_data_dispatch-IsChosen :
    (size : ℕ) (same_host reach_storage : Bool)
    → IsChosen size same_host reach_storage (choose_data_dispatch size same_host reach_storage)
unfolding choose_data_dispatch
choose_data_dispatch-IsChosen size same_host reach_storage = record {
  by_value = ground arith;
  by_memory = ground arith;
  by_reference = ground arith;
}
