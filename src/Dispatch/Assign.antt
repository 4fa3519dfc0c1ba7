-- ===== src/Dispatch/Assign.antt =====
-- Handing out tasks: `assign_task`, `_prepare_assignment` and the prefetching of data
-- (packages/dispatcher/stockstat_dispatcher/core.py). The decoded inline data that `_prefetch_data`
-- keeps in the parameters only saves decoding it again, and is not kept here.
pub mod Search
pub mod Prefetch
use stock_statistic.Common.{
  ℕ, zero, suc, ◌+◌, Bool, true, false, ◌||◌, Option, none, some, List, [], ◌∷◌, ◌++◌,
  if◌then◌else◌,
}
use stock_statistic.Common.Lists.{length}
use stock_statistic.Common.Text.{Text, codes, text_mem}
use stock_statistic.Common.Dict.{Dict, get, put, erase, modify}
use stock_statistic.Protocol.Value.{Value, null, text, Fields}
use stock_statistic.Protocol.Task.{DataSpec, TaskSpec, to_dict}
use stock_statistic.Protocol.CacheKey.{cache_key}
use stock_statistic.Dispatch.Queue.{TaskQueue, dequeue, size}
use stock_statistic.Dispatch.Workers.{increment_active}
use stock_statistic.Dispatch.Cache.{
  Bytes, DataCache, FetchResult, found, missed, unknown_ref, get_ref, put_bytes, fetch_bytes,
}
use stock_statistic.Dispatch.SliceId.{parent_id}
use stock_statistic.Dispatch.State.{
  Outside, TaskState, pending, running, TaskInfo, TaskEntry, Dispatcher, enqueue_all,
}

-- `task_type in capabilities or "custom" in capabilities`
unfoldable pub can_run : List Text → TaskSpec → Bool
can_run capabilities spec =
    text_mem spec.compute_spec.task_type capabilities || text_mem (codes "custom") capabilities

-- The loop of `assign_task`, on fuel: one round more than there are entries is enough. The tasks
-- that are passed over go back into the queue only where the queue runs out.
unfoldable pub find_task : ℕ → List Text → List TaskSpec → TaskQueue → Option TaskSpec × TaskQueue
find_task zero capabilities skipped q = (none, q)
find_task (suc fuel) capabilities skipped q =
    let (next, q') = dequeue q in
    elim next [
      | none ↦ (none, enqueue_all skipped q')
      | some spec ↦
          let rest = find_task fuel capabilities (skipped ++ spec ∷ []) q' in
          if can_run capabilities spec then (some spec, q') else rest
    ]

-- `params.get(key)`
abbrev param : Text → TaskSpec → Value
param key spec = elim (get key spec.compute_spec.params) [ none ↦ null | some v ↦ v ]

abbrev pub inline_key : Text
inline_key = codes "_inline_data"

abbrev pub inline_b64_key : Text
inline_b64_key = codes "_inline_data_b64"

-- The decoding of the parameter; base64 raises where it is no text.
abbrev decoded : Outside → Value → Option Value
decoded out null = some null
decoded out (text t) = if out.is_readable t then some (out.unpickle (out.b64decode t)) else none
decoded out _ = none

-- The inline data of a task, `null` if there is none; `none` is an exception.
unfoldable pub inline_data : Outside → TaskSpec → Option Value
inline_data out spec = elim (param inline_key spec) [
  | null ↦ decoded out (param inline_b64_key spec)
  | v ↦ some v
]

unfoldable pub fetch_from_storage : Outside → DataSpec → Option Value
fetch_from_storage out s = elim out.storage_backend [
  | some fetch ↦ fetch s
  | none ↦ elim out.storage_service [ none ↦ some null | some fetch ↦ fetch s ]
]

-- Without inline data the storage is asked, if there are symbols.
abbrev or_stored : Outside → TaskSpec → Option Value → Option Value
or_stored out spec none = none
or_stored out spec (some null) = elim spec.data_spec.symbols [
  | [] ↦ some null
  | _ ∷ _ ↦ fetch_from_storage out spec.data_spec
]
or_stored out spec (some v) = some v

-- The data that is encoded where the cache has none; `none` is an exception.
unfoldable pub data_for : Outside → TaskSpec → Option Value
unfolding inline_data fetch_from_storage
data_for out spec = or_stored out spec (inline_data out spec)

-- A reference is not an empty text, so `if ref` tests for `None`. Where the data cannot be read,
-- there is no reference, and the cache has counted the miss.
abbrev pub prefetched :
    Outside → ℕ → Text → Option Value → Option Text × DataCache → Option Text × DataCache
prefetched out now key v (some ref, c) = (some ref, c)
prefetched out now key none (none, c) = (none, c)
prefetched out now key (some v) (none, c) =
    let (ref, c') = put_bytes now key (out.pickle v) c in (some ref, c')

unfoldable pub prefetch_data : Outside → ℕ → TaskSpec → DataCache → Option Text × DataCache
unfolding data_for
prefetch_data out now spec c =
    let key = cache_key out.digest spec.data_spec in
    prefetched out now key (data_for out spec) (get_ref now key c)

-- What a worker is sent.
pub record Assignment : Type 0 where
  pub task_spec : Fields
  pub data_ref : Text
  pub encoded : Text
  pub data_codec : Text

pub data AssignResult : Type 0 where
  nothing : AssignResult
  assigned : Assignment → AssignResult
  -- an exception of the storage or of the decoding of inline data
  data_failed : AssignResult
  -- the ValueError of `fetch_bytes`
  raised : FetchResult → AssignResult

-- The specification without its inline data.
unfoldable pub strip_inline : TaskSpec → TaskSpec
strip_inline spec =
    let cs = spec.compute_spec in
    record spec {
      compute_spec = record cs { params = erase inline_b64_key (erase inline_key cs.params) };
    }

abbrev is_pending : TaskState → Bool
is_pending pending = true
is_pending _ = false

-- The parent's entry after one of its slices goes to a worker.
unfoldable pub assign_entry : ℕ → Text → Text → TaskEntry → TaskEntry
assign_entry now slice_id worker_id t =
    let starts = is_pending t.info.state in
    record t {
      assigned_slices = put slice_id worker_id t.assigned_slices;
      info = record t.info {
        state = if starts then running else t.info.state;
        started_at = if starts then some now else t.info.started_at;
        worker_id = some worker_id;
      };
    }

abbrev pub assignment_of : Outside → TaskSpec → Text → FetchResult → AssignResult
assignment_of out spec ref (found bytes) = assigned (record {
  task_spec = to_dict out.runtime (strip_inline spec);
  data_ref = ref;
  encoded = out.b64encode bytes;
  data_codec = codes "cloudpickle";
})
assignment_of out spec ref failure = raised failure

-- What follows the prefetching. An exception of it leaves the tasks and the workers as they were.
unfoldable pub after_prefetch :
    Outside → ℕ → TaskSpec → Text → Dispatcher → Option Text × DataCache → AssignResult × Dispatcher
unfolding assign_entry
after_prefetch out now spec worker_id d (none, c) = (data_failed, record d { cache = c })
after_prefetch out now spec worker_id d (some ref, c) =
    let d' : Dispatcher = record d {
      cache = c;
      tasks = modify (parent_id spec.task_id) (assign_entry now spec.task_id worker_id) d.tasks;
      workers = increment_active worker_id d.workers;
    } in
    (assignment_of out spec ref (fetch_bytes out.b64decode ref c), d')

unfoldable pub prepare_assignment :
    Outside → ℕ → TaskSpec → Text → Dispatcher → AssignResult × Dispatcher
unfolding after_prefetch prefetch_data
prepare_assignment out now spec worker_id d =
    after_prefetch out now spec worker_id d (prefetch_data out now spec d.cache)

abbrev pub hand_out :
    Outside → ℕ → Text → Dispatcher → Option TaskSpec × TaskQueue → AssignResult × Dispatcher
hand_out out now worker_id d (none, q) = (nothing, record d { queue = q })
hand_out out now worker_id d (some spec, q) =
    prepare_assignment out now spec worker_id (record d { queue = q })

unfoldable pub assign_task : Outside → ℕ → Text → List Text → Dispatcher → AssignResult × Dispatcher
unfolding find_task prepare_assignment
assign_task out now worker_id capabilities d =
    hand_out out now worker_id d (find_task (suc (size d.queue)) capabilities [] d.queue)
