-- ===== src/Dispatch/Assign/Prefetch.antt =====
-- The data that goes with an assignment (packages/dispatcher/stockstat_dispatcher/core.py).
use stock_statistic.Common.{
  ℕ, suc, ◌≡◌, refl, ap, ◌∙◌, ◌≢◌, inl, inr, Option, none, some, false, List, [], Option-cases,
  arith,
}
use stock_statistic.Dispatch.Queue.{TaskQueue, size}
use stock_statistic.Common.Text.{Text, codes, text_eq, text_eq_iff, text_eq_refl}
use mathlib.Core.Option.{some-injective}
use stock_statistic.Common.Dict.{Dict, get, erase, modify, get-erase}
use stock_statistic.Protocol.Value.{Value}
use stock_statistic.Protocol.Task.{TaskSpec, to_dict}
use stock_statistic.Protocol.CacheKey.{cache_key}
use stock_statistic.Dispatch.Cache.{
  Bytes, CacheEntry, DataCache, FetchResult, found, fetch_bytes, ref_of,
}
use stock_statistic.Dispatch.Cache.Accounted.{IsAccounted}
use stock_statistic.Dispatch.Cache.Put.{put_bytes-IsAccounted, fetch_bytes-put_bytes}
use stock_statistic.Dispatch.Cache.Hit.{
  after_hit, after_miss, get_ref_hit, get_ref_miss, after_hit-IsAccounted, fetch_bytes-after_hit,
}
use stock_statistic.Dispatch.State.{Outside, Dispatcher}
use stock_statistic.Dispatch.SliceId.{parent_id}
use stock_statistic.Dispatch.Workers.{increment_active}
use stock_statistic.Dispatch.Assign.{
  inline_key, inline_b64_key, data_for, prefetched, prefetch_data, AssignResult, assigned,
  data_failed, raised, strip_inline, assign_entry, assignment_of, after_prefetch,
  prepare_assignment, hand_out, find_task, assign_task,
}

abbrev pub encoded_data : Outside → Option Value → Option Bytes
encoded_data out none = none
encoded_data out (some v) = some (out.pickle v)

-- What the cache holds for a key, or else the data of the task, encoded, if it can be read.
abbrev pub payload : Outside → TaskSpec → Option CacheEntry → Option Bytes
payload out spec none = encoded_data out (data_for out spec)
payload out spec (some e) = some e.bytes

-- What a prefetching leads to: a reference that can be fetched, or an exception.
abbrev pub Prefetched : Outside → Option Bytes → Option Text × DataCache → Type 0
Prefetched out none r = r.0 ≡ none
Prefetched out (some bytes) r =
    (ref : Text) × (r.0 ≡ some ref) × (fetch_bytes out.b64decode ref r.1 ≡ found bytes)

module _ (out : Outside) (now : ℕ) (spec : TaskSpec) (c : DataCache) where
  abbrev key : Text
  key = cache_key out.digest spec.data_spec

  prefetch_hit :
      (e : CacheEntry)
      → get key c.entries ≡ some e
      → prefetch_data out now spec c ≡ (some (ref_of key), after_hit now key c)
  unfolding prefetch_data
  prefetch_hit e h = rw (get_ref_hit now key c e h, prefetch_data) refl

  prefetch_miss :
      get key c.entries ≡ none
      → prefetch_data out now spec c
        ≡ prefetched out now key (data_for out spec) (none, after_miss c)
  unfolding prefetch_data
  prefetch_miss h = rw (get_ref_miss now key c h, prefetch_data) refl

  missed-Prefetched :
      (v : Option Value)
      → Prefetched out (encoded_data out v) (prefetched out now key v (none, after_miss c))
  missed-Prefetched none = refl
  missed-Prefetched (some v) =
      (_, refl, fetch_bytes-put_bytes out.b64decode now key (out.pickle v) (after_miss c))

  missed-IsAccounted :
      (v : Option Value)
      → get key c.entries ≡ none
      → IsAccounted (after_miss c)
      → IsAccounted (prefetched out now key v (none, after_miss c)).1
  missed-IsAccounted none missing h = h
  missed-IsAccounted (some v) missing h =
      put_bytes-IsAccounted now key (out.pickle v) (after_miss c) h missing

  -- The reference that `_prefetch_data` gives can always be fetched: it stands for the bytes that
  -- the cache had for the request, or else for the task's own data, encoded. There is none where
  -- the cache has nothing and the data cannot be read.
  pub prefetch_data-Prefetched :
      Prefetched out (payload out spec (get key c.entries)) (prefetch_data out now spec c)
  prefetch_data-Prefetched = elim (Option-cases (get key c.entries)) [
    | inl missing ↦ rw (prefetch_miss missing, missing) (missed-Prefetched (data_for out spec))
    | inr (e, present) ↦
        rw (prefetch_hit e present, present)
          (ref_of key, refl, fetch_bytes-after_hit out.b64decode now key c e present)
  ]

  -- Prefetching keeps the cache's account of its size.
  pub prefetch_data-IsAccounted : IsAccounted c → IsAccounted (prefetch_data out now spec c).1
  prefetch_data-IsAccounted h =
      let after : IsAccounted (after_miss c) = record { unique = h.unique; total = h.total } in
      elim (Option-cases (get key c.entries)) [
        | inl missing ↦
            rw (prefetch_miss missing) (missed-IsAccounted (data_for out spec) missing after)
        | inr (e, present) ↦ rw (prefetch_hit e present) (after_hit-IsAccounted now key c h)
      ]

-- A specification without inline data, and otherwise as it was.
pub record IsStripped (spec sent : TaskSpec) : Type 0 where
  pub inline_gone : get inline_key sent.compute_spec.params ≡ none
  pub encoded_gone : get inline_b64_key sent.compute_spec.params ≡ none
  pub others :
      (k : Text)
      → k ≢ inline_key
      → k ≢ inline_b64_key
      → get k sent.compute_spec.params ≡ get k spec.compute_spec.params
  pub rest :
      (record sent {
        compute_spec = record sent.compute_spec { params = spec.compute_spec.params };
      })
      ≡ spec

two_keys : text_eq inline_key inline_b64_key ≡ false
unfolding text_eq
two_keys = refl

get-erase_ne : (k j : Text) (d : Dict Value) → j ≢ k → get j (erase k d) ≡ get j d
get-erase_ne k j d ne = ground (arith, get-erase k j d, text_eq_iff k j, ne)

get-erase_self : (k : Text) (d : Dict Value) → get k (erase k d) ≡ none
get-erase_self k d = rw (get-erase k k d, text_eq_refl k) refl

strip_inline-IsStripped : (spec : TaskSpec) → IsStripped spec (strip_inline spec)
unfolding strip_inline
strip_inline-IsStripped spec =
    let params = spec.compute_spec.params in
    record {
      inline_gone =
          get-erase_ne inline_b64_key inline_key (erase inline_key params) inline_keys_ne
          ∙ get-erase_self inline_key params;
      encoded_gone = get-erase_self inline_b64_key (erase inline_key params);
      others = λ k a b. get_others k params a b;
      rest = refl;
    }
  where
    inline_keys_ne : inline_key ≢ inline_b64_key
    inline_keys_ne e = cc ((text_eq_iff inline_key inline_b64_key).1 e, two_keys)

    get_others :
        (k : Text) (params : Dict Value)
        → k ≢ inline_key
        → k ≢ inline_b64_key
        → get k (erase inline_b64_key (erase inline_key params)) ≡ get k params
    get_others k params a b =
        get-erase_ne inline_b64_key k (erase inline_key params) b
        ∙ get-erase_ne inline_key k params a

-- What is sent to a worker where the bytes are known.
pub record Sends (out : Outside) (now : ℕ) (spec : TaskSpec) (worker_id : Text) (d : Dispatcher)
    (bytes : Bytes) (r : AssignResult × Dispatcher) : Type 0 where
  pub sent : TaskSpec
  pub ref : Text
  pub result :
      r.0
      ≡ assigned (record {
        task_spec = to_dict out.runtime sent;
        data_ref = ref;
        encoded = out.b64encode bytes;
        data_codec = codes "cloudpickle";
      })
  pub stripped : IsStripped spec sent
  pub fetched : fetch_bytes out.b64decode ref r.1.cache ≡ found bytes
  pub queue : r.1.queue ≡ d.queue
  pub tasks :
      r.1.tasks ≡ modify (parent_id spec.task_id) (assign_entry now spec.task_id worker_id) d.tasks
  pub workers : r.1.workers ≡ increment_active worker_id d.workers

-- Where there are none, an exception ends the handler, which has changed nothing but the cache.
pub record Fails (d : Dispatcher) (r : AssignResult × Dispatcher) : Type 0 where
  pub result : r.0 ≡ data_failed
  pub tasks : r.1.tasks ≡ d.tasks
  pub workers : r.1.workers ≡ d.workers
  pub queue : r.1.queue ≡ d.queue

abbrev pub Prepared :
    Outside → ℕ → TaskSpec → Text → Dispatcher → Option Bytes → AssignResult × Dispatcher → Type 0
Prepared out now spec worker_id d none r = Fails d r
Prepared out now spec worker_id d (some bytes) r = Sends out now spec worker_id d bytes r

after_prefetch-Prepared :
    (out : Outside) (now : ℕ) (spec : TaskSpec) (worker_id : Text) (d : Dispatcher)
    (bytes : Option Bytes) (r : Option Text × DataCache)
    → Prefetched out bytes r
    → Prepared out now spec worker_id d bytes (after_prefetch out now spec worker_id d r)
unfolding after_prefetch
after_prefetch-Prepared out now spec worker_id d none (none, c) h = record {
  result = refl;
  tasks = refl;
  workers = refl;
  queue = refl;
}
after_prefetch-Prepared out now spec worker_id d none (some ref, c) h = cc h
after_prefetch-Prepared out now spec worker_id d (some bytes) (none, c) (ref, e, h) = cc e
after_prefetch-Prepared out now spec worker_id d (some bytes) (some ref', c) (ref, e, h) =
    let found' : fetch_bytes out.b64decode ref' c ≡ found bytes =
      ap (λ x. fetch_bytes out.b64decode x c) (some-injective _ _ e) ∙ h in
    record {
      sent = strip_inline spec;
      ref = ref';
      result = ap (assignment_of out spec ref') found';
      stripped = strip_inline-IsStripped spec;
      fetched = found';
      queue = refl;
      tasks = refl;
      workers = refl;
    }

pub prepare_assignment_sends :
    (out : Outside) (now : ℕ) (spec : TaskSpec) (worker_id : Text) (d : Dispatcher)
    → Prepared out now spec worker_id d
        (payload out spec (get (cache_key out.digest spec.data_spec) d.cache.entries))
        (prepare_assignment out now spec worker_id d)
unfolding prepare_assignment
prepare_assignment_sends out now spec worker_id d =
    after_prefetch-Prepared out now spec worker_id d _ (prefetch_data out now spec d.cache)
      (prefetch_data-Prefetched out now spec d.cache)

Prepared-ne-raised :
    (out : Outside) (now : ℕ) (spec : TaskSpec) (worker_id : Text) (d : Dispatcher)
    (bytes : Option Bytes) (r : AssignResult × Dispatcher) (f : FetchResult)
    → Prepared out now spec worker_id d bytes r
    → r.0 ≢ raised f
Prepared-ne-raised out now spec worker_id d none r f p h = cc (h, p.result)
Prepared-ne-raised out now spec worker_id d (some bytes) r f p h = cc (h, p.result)

hand_out_sends :
    (out : Outside) (now : ℕ) (worker_id : Text) (d : Dispatcher) (r : Option TaskSpec × TaskQueue)
    (f : FetchResult)
    → (hand_out out now worker_id d r).0 ≢ raised f
hand_out_sends out now worker_id d (none, q) f h = cc h
hand_out_sends out now worker_id d (some spec, q) f h =
    Prepared-ne-raised out now spec worker_id (record d { queue = q }) _ _ f
      (prepare_assignment_sends out now spec worker_id (record d { queue = q })) h

-- `assign_task` never raises because of the cache: the data that was prefetched for a task is still
-- there when it is fetched.
pub assign_task-ne-raised :
    (out : Outside) (now : ℕ) (worker_id : Text) (capabilities : List Text) (d : Dispatcher)
    (f : FetchResult)
    → (assign_task out now worker_id capabilities d).0 ≢ raised f
unfolding assign_task
assign_task-ne-raised out now worker_id capabilities d f =
    hand_out_sends out now worker_id d (find_task (suc (size d.queue)) capabilities [] d.queue) f

-- The data of a task can be read.
abbrev pub IsReadable : Outside → TaskSpec → Type 0
IsReadable out spec = (v : Value) × (data_for out spec ≡ some v)

-- There are then bytes to send.
pub payload-IsReadable :
    (out : Outside) (spec : TaskSpec) (o : Option CacheEntry)
    → IsReadable out spec
    → (bytes : Bytes) × (payload out spec o ≡ some bytes)
payload-IsReadable out spec none (v, h) = (out.pickle v, rw (h, payload) refl)
payload-IsReadable out spec (some e) h = (e.bytes, refl)
