-- ===== src/Compute/Checkpoint.antt =====
-- CheckpointStore (packages/compute/stockstat_compute/checkpoint.py).
use stock_statistic.Common.{◌≡◌, refl, ap, ◌∙◌, Option, some, none, List, [], ◌∷◌, if◌then◌else◌}
use stock_statistic.Common.Text.{Text, text_eq}
use stock_statistic.Common.Dict.{Dict, get, put, erase, keys, get-put, get-erase}
use stock_statistic.Dispatch.Cache.{Bytes}

pub record CheckpointStore : Type 0 where
  pub store : Dict Bytes

unfoldable pub save : Text → Bytes → CheckpointStore → CheckpointStore
save slice_id state s = record { store = put slice_id state s.store }

unfoldable pub load : Text → CheckpointStore → Option Bytes
load slice_id s = get slice_id s.store

unfoldable pub delete : Text → CheckpointStore → CheckpointStore
delete slice_id s = record { store = erase slice_id s.store }

unfoldable pub list_ids : CheckpointStore → List Text
list_ids s = keys s.store

unfoldable pub clear : CheckpointStore → CheckpointStore
clear s = record { store = [] }

-- A call that changes the store.
pub data Call : Type 0 where
  saved : (slice_id : Text) → Bytes → Call
  deleted : (slice_id : Text) → Call
  cleared : Call

unfoldable pub run : List Call → CheckpointStore → CheckpointStore
unfolding save delete clear
run [] s = s
run (saved slice_id state ∷ cs) s = run cs (save slice_id state s)
run (deleted slice_id ∷ cs) s = run cs (delete slice_id s)
run (cleared ∷ cs) s = run cs (clear s)

-- The checkpoint of a slice after the calls, from the one before them: that of its last save, or
-- none if it was deleted or all were cleared since.
unfoldable pub last_saved : Text → List Call → Option Bytes → Option Bytes
last_saved j [] o = o
last_saved j (saved slice_id state ∷ cs) o =
    last_saved j cs (if text_eq slice_id j then some state else o)
last_saved j (deleted slice_id ∷ cs) o = last_saved j cs (if text_eq slice_id j then none else o)
last_saved j (cleared ∷ cs) o = last_saved j cs none

-- After any calls, `load` gives what the slice's last save stored, unless it was deleted or all
-- were cleared since; other slices have no part in it.
pub load-run :
    (slice_id : Text) (cs : List Call) (s : CheckpointStore)
    → load slice_id (run cs s) ≡ last_saved slice_id cs (load slice_id s)
unfolding run last_saved load save delete clear get
load-run j [] s = refl
load-run j (saved slice_id state ∷ cs) s =
    load-run j cs (save slice_id state s) ∙ ap (last_saved j cs) (get-put slice_id j state s.store)
load-run j (deleted slice_id ∷ cs) s =
    load-run j cs (delete slice_id s) ∙ ap (last_saved j cs) (get-erase slice_id j s.store)
load-run j (cleared ∷ cs) s = load-run j cs (clear s)
